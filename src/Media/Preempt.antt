-- ===== src/Media/Preempt.antt =====
-- An announcement silences the RTC audio.
use mybot.Media.Session.{other_calls}
use mybot.Announce.{is_active, get_generation, Frame}
use mybot.Media.Valid.{other_calls-Untouched, heard}
use mybot.Common.{
  ◌||◌, if◌then◌else◌, Bool, ◌∙◌, ◌-◌, take, ◌+◌, ◌&&◌, pos, ltb, ap, negsuc, false, not, if-keep,
  refl, ◌==◌, ℤ, ◌∷◌, arith, ℕ, true, List, ◌≡◌,
}
use mybot.Media.Playback.{
  has_reference_room, playback_timer, write_data, Turn, account, write_pending, settle_pending,
  refresh, prepare_pending_playback, reference, preempt,
}
use mybot.Media.{Pipeline, discard_pending_playback, Build, Source, silence, rtc, prompt, is_prompt}

settle_pending_log : (p : Pipeline) → (settle_pending p).played ≡ p.played
unfolding settle_pending discard_pending_playback
settle_pending_log p = ground arith

reference_log :
    (b : Build) (n : ℕ) (fs : List Frame) (p : Pipeline) → (reference b n fs p).played ≡ p.played
unfolding reference
reference_log b n fs p = ground arith

prompt_unheard :
    (s : Source) (fs : List Frame) (log : List (Source × List Frame))
    → s ≡ prompt
    → heard ((s, fs) ∷ log) ≡ heard log
unfolding heard
prompt_unheard prompt fs log e = refl
prompt_unheard rtc fs log e = absurd (ground (arith, ap is_prompt e))
prompt_unheard silence fs log e = absurd (ground (arith, ap is_prompt e))

only_prompt : (s : Source) → is_prompt s ≡ true → s ≡ prompt
only_prompt prompt e = refl
only_prompt rtc e = absurd (ground (arith, e))
only_prompt silence e = absurd (ground (arith, e))

account_log :
    (b : Build) (fs : List Frame) (n : ℤ) (p : Pipeline)
    → p.pb_pending_source ≡ prompt
    → heard (account b fs n p).played ≡ heard p.played
unfolding account discard_pending_playback
account_log b fs (negsuc n) p e = refl
account_log b fs (pos n) p e =
    if-keep (λ (q : Pipeline). heard q.played ≡ heard p.played) (ltb p.pb_pending_frames n)
      (λ t. refl)
      (λ t.
        let o = record p {
          pb_pending_offset = p.pb_pending_offset + n;
          played = (p.pb_pending_source, take n fs) ∷ p.played;
        } in
        let q = reference b n fs o in
        ap heard (settle_pending_log (record q { pb_pending_frames = q.pb_pending_frames - n }))
        ∙ ap heard (reference_log b n fs o)
        ∙ prompt_unheard p.pb_pending_source (take n fs) p.played e)

write_pending_log :
    (b : Build) (t : Turn) (p : Pipeline)
    → p.pb_pending_source ≡ prompt
    → heard (write_pending b t p).played ≡ heard p.played
unfolding write_pending discard_pending_playback
write_pending_log b t p e =
    if-keep (λ (q : Pipeline). heard q.played ≡ heard p.played)
      (not (get_generation p.announce == p.pb_pending_generation)) (λ k. refl)
      (λ k.
        let u = other_calls-Untouched t.at_write p in
        account_log b (write_data p) t.accepted (other_calls t.at_write p) (u.source ∙ e)
        ∙ ap heard u.log)

refresh_log : (b : Build) (p : Pipeline) → (refresh b p).played ≡ p.played
unfolding refresh discard_pending_playback
refresh_log b p = ground arith

-- After `preempt`, what is pending is none or of the announcement.
preempt_log :
    (b : Build) (p : Pipeline)
    → ((preempt b true p).played ≡ p.played)
      × (((preempt b true p).pb_pending_frames == 0) ≡ false
          → (preempt b true p).pb_pending_source ≡ prompt)
unfolding preempt discard_pending_playback
preempt_log b p =
    if-keep
      (λ (q : Pipeline).
        (q.played ≡ p.played) × ((q.pb_pending_frames == 0) ≡ false → q.pb_pending_source ≡ prompt))
      (ltb 0 p.pb_pending_frames && not (is_prompt p.pb_pending_source))
      (λ t. (refl, λ e. absurd (ground (arith, e))))
      (λ t. (refl, λ e. only_prompt p.pb_pending_source (ground (arith, t, e))))

prepare_log :
    (b : Build) (deliver : ℕ → List Frame) (generation : ℕ) (p : Pipeline)
    → let (ready, q) = prepare_pending_playback b deliver true generation p in
      (q.played ≡ p.played) × (ready ≡ true → q.pb_pending_source ≡ prompt)
unfolding prepare_pending_playback
prepare_log b deliver generation p = ground arith

last_log :
    (b : Build) (t : Turn) (x : Bool × Pipeline)
    → (x.0 ≡ true → x.1.pb_pending_source ≡ prompt)
    → heard
        (if not x.0 || not (has_reference_room b x.1)
          then x.1
          else write_pending b t (other_calls t.at_check x.1)).played
      ≡ heard x.1.played
last_log b t (ready, s) e =
    if-keep (λ (q : Pipeline). heard q.played ≡ heard s.played)
      (not ready || not (has_reference_room b s)) (λ k. refl)
      (λ k.
        let u = other_calls-Untouched t.at_check s in
        write_pending_log b t (other_calls t.at_check s) (u.source ∙ e (ground arith))
        ∙ ap heard u.log)

-- While an announcement is active, a turn of the playback worker gives the device no RTC audio, whatever
-- other threads do during the turn.
pub announcement_wins :
    (b : Build) (t : Turn) (p : Pipeline)
    → is_active (other_calls t.at_start (refresh b p)).announce ≡ true
    → heard (playback_timer b t p).played ≡ heard p.played
unfolding playback_timer
announcement_wins b t p e =
    let q = other_calls t.at_start (refresh b p) in
    let r = preempt b true q in
    let (kept, source) = preempt_log b q in
    let staged =
      if-keep
        (λ (x : Bool × Pipeline).
          (x.1.played ≡ r.played) × (x.0 ≡ true → x.1.pb_pending_source ≡ prompt))
        (r.pb_pending_frames == 0) (λ k. prepare_log b t.deliver (get_generation p.announce) r)
        (λ k. (refl, λ o. source k)) in
    if-keep (λ (x : Pipeline). heard x.played ≡ heard p.played) (not p.running) (λ k. refl)
      (λ k. rw e (
        last_log b t
          (if r.pb_pending_frames == 0
            then prepare_pending_playback b t.deliver true (get_generation p.announce) r
            else (true, r))
          staged.1
        ∙ ap heard (
            staged.0
            ∙ kept
            ∙ (other_calls-Untouched t.at_start (refresh b p)).log
            ∙ refresh_log b p)))
