-- ===== src/Media/Valid.antt =====
-- What every step of the pipeline keeps: sound rings, pending audio inside its array, and an echo
-- reference that mirrors what was played.
use mybot.Media.{
  Build, frame_samples, Pipeline, Source, rtc, prompt, silence, discard_pending_playback,
}
use mybot.Media.Buffers.{bytes_of}
use mybot.Media.Rings.{RingOk, contents_of, write_ok}
use mybot.Media.Session.{
  OtherCall, audio, connected, play, stop, other_call, other_calls, set_rtc_connected,
  push_remote_audio, play_prompt, stop_prompt,
}
use mybot.Announce.{announce_stop, play_pair_code, is_active, Frame}
use mybot.Ringbuf.{write}
use mybot.Common.{
  none, false, true, pos, some, int_max, ltb, not, ◌||◌, ap₂, refl, ap, ◌≤◌, ◌∙◌, [], ◌==◌, ◌+◌,
  length, ◌∷◌, sym, ℕ, ◌<◌, ◌≡◌, subst, List, if-keep, arith, ◌++◌,
}

-- The bytes of the RTC audio that the device took, oldest first.
unfoldable pub heard : List (Source × List Frame) → List ℕ
heard [] = []
heard ((rtc, fs) ∷ log) = heard log ++ bytes_of fs
heard ((prompt, fs) ∷ log) = heard log
heard ((silence, fs) ∷ log) = heard log

pub record Good (b : Build) (p : Pipeline) : Type 0 where
  pub cap_ok : RingOk p.cap_ringbuf
  pub pb_ok : RingOk p.pb_ringbuf
  pub ref_ok : RingOk p.ref_ringbuf
  pub array_ok : length p.pb_pending ≡ frame_samples b
  pub pending :
      0 < p.pb_pending_frames → p.pb_pending_offset + p.pb_pending_frames ≤ frame_samples b
  pub mirror : heard p.played ≡ p.ref_read ++ contents_of p.ref_ringbuf

-- What the calls of other threads leave alone.
pub record Untouched (p q : Pipeline) : Type 0 where
  pub cap : q.cap_ringbuf ≡ p.cap_ringbuf
  pub ref : q.ref_ringbuf ≡ p.ref_ringbuf
  pub array : q.pb_pending ≡ p.pb_pending
  pub offset : q.pb_pending_offset ≡ p.pb_pending_offset
  pub frames : q.pb_pending_frames ≡ p.pb_pending_frames
  pub source : q.pb_pending_source ≡ p.pb_pending_source
  pub log : q.played ≡ p.played
  pub taken : q.ref_read ≡ p.ref_read
  pub pb : RingOk p.pb_ringbuf → RingOk q.pb_ringbuf

-- An update of other fields.
aside :
    (p q : Pipeline)
    → q.cap_ringbuf ≡ p.cap_ringbuf
    → q.ref_ringbuf ≡ p.ref_ringbuf
    → q.pb_pending ≡ p.pb_pending
    → q.pb_pending_offset ≡ p.pb_pending_offset
    → q.pb_pending_frames ≡ p.pb_pending_frames
    → q.pb_pending_source ≡ p.pb_pending_source
    → q.played ≡ p.played
    → q.ref_read ≡ p.ref_read
    → (RingOk p.pb_ringbuf → RingOk q.pb_ringbuf)
    → Untouched p q
aside p q a b c d e f g h i = record {
  cap = a;
  ref = b;
  array = c;
  offset = d;
  frames = e;
  source = f;
  log = g;
  taken = h;
  pb = i;
}

other_call-Untouched : (i : OtherCall) (p : Pipeline) → Untouched p (other_call i p)
unfolding other_call set_rtc_connected push_remote_audio play_prompt stop_prompt
other_call-Untouched (audio bytes) p =
    if-keep (Untouched p)
      (length bytes == 0
        || not p.running
        || not p.rtc_connected
        || p.announce_clear_pb
        || is_active p.announce)
      (λ t. aside p p refl refl refl refl refl refl refl refl (λ v. v))
      (λ t.
        if-keep (Untouched p) (ltb int_max (length bytes))
          (λ t. aside p p refl refl refl refl refl refl refl refl (λ v. v))
          (λ t.
            aside p
              (record p { pb_ringbuf = (write p.pb_ringbuf (some bytes) (pos (length bytes))).1 })
              refl refl refl refl refl refl refl refl
              (λ v. write_ok p.pb_ringbuf bytes (length bytes) v)))
other_call-Untouched (connected true) p =
    aside p (record p { rtc_connected = true }) refl refl refl refl refl refl refl refl (λ v. v)
other_call-Untouched (connected false) p =
    aside p (record p { rtc_connected = false; announce_clear_pb = true }) refl refl refl refl refl
      refl refl refl (λ v. v)
other_call-Untouched (play open_sound none) p =
    aside p p refl refl refl refl refl refl refl refl (λ v. v)
other_call-Untouched (play open_sound (some code)) p =
    aside p (record p { announce = (play_pair_code open_sound (some code) p.announce).1 }) refl refl
      refl refl refl refl refl refl (λ v. v)
other_call-Untouched stop p =
    aside p (record p { announce = announce_stop p.announce }) refl refl refl refl refl refl refl
      refl (λ v. v)

pub other_calls-Untouched : (is : List OtherCall) (p : Pipeline) → Untouched p (other_calls is p)
unfolding other_calls
other_calls-Untouched [] p = aside p p refl refl refl refl refl refl refl refl (λ v. v)
other_calls-Untouched (i ∷ is) p =
    let u = other_call-Untouched i p in
    let w = other_calls-Untouched is (other_call i p) in
    record {
      cap = w.cap ∙ u.cap;
      ref = w.ref ∙ u.ref;
      array = w.array ∙ u.array;
      offset = w.offset ∙ u.offset;
      frames = w.frames ∙ u.frames;
      source = w.source ∙ u.source;
      log = w.log ∙ u.log;
      taken = w.taken ∙ u.taken;
      pb = λ v. w.pb (u.pb v);
    }

pub Untouched-Good : {b : Build} {p q : Pipeline} → Untouched p q → Good b p → Good b q
Untouched-Good {b} {p} {q} u v = record {
  cap_ok = subst RingOk (sym u.cap) v.cap_ok;
  pb_ok = u.pb v.pb_ok;
  ref_ok = subst RingOk (sym u.ref) v.ref_ok;
  array_ok = ap length u.array ∙ v.array_ok;
  pending = rw (u.offset, u.frames) v.pending;
  mirror = ap heard u.log ∙ v.mirror ∙ ap₂ (λ a b. a ++ contents_of b) (sym u.taken) (sym u.ref);
}

pub discard-Good : {b : Build} {p : Pipeline} → Good b p → Good b (discard_pending_playback p)
unfolding discard_pending_playback
discard-Good v = record {
  cap_ok = v.cap_ok;
  pb_ok = v.pb_ok;
  ref_ok = v.ref_ok;
  array_ok = v.array_ok;
  pending = λ h. absurd (omega arith);
  mirror = v.mirror;
}
