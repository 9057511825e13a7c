-- ===== src/Media/Echo.antt =====
-- A write of pending audio, and its echo reference.
use mybot.Audio.Gain.{length-apply_media_volume}
use mybot.Ringbuf.{Ring}
use mybot.Audio.{volume_max, apply_media_volume}
use mybot.Common.{
  append_assoc, ◌+◌, append-nil, negsuc, ℤ, sym, ◌∙◌, inr, map, some, length-map, inl, Bool-cases,
  pos, zero, length-drop, ap, refl, ◌&&◌, length-take, suc, [], ltb, ◌∷◌, true, drop, not, ◌++◌,
  take, ◌==◌, arith, ◌*◌, ◌≤◌, ◌||◌, ◌≡◌, if◌then◌else◌, length, if-keep, ℕ, Option, List, ◌<◌,
}
use mybot.Media.{Build, Pipeline, Source, rtc, prompt, silence, is_rtc}
use mybot.Media.Buffers.{at_least, bytes_of}
use mybot.Media.Rings.{RingOk, contents_of, write_ok, write_room}
use mybot.Media.Valid.{heard, Good, Untouched, other_calls-Untouched, Untouched-Good, discard-Good}
use mybot.Media.Session.{other_calls}
use mybot.Media.Playback.{
  sample_of, frame_of, Turn, write_data, reference, settle_pending, account, write_pending,
  has_reference_room,
}
use mybot.Announce.{get_generation, Frame}
use mybot.Ringbuf.{get_free_size, Reply, done, refused, overflow, write}
use mybot.Media.Pending.{length-bytes_of}

pub length-write_data :
    {b : Build} {p : Pipeline}
    → Good b p
    → 0 < p.pb_pending_frames
    → length (write_data p) ≡ p.pb_pending_frames
unfolding write_data
length-write_data {b} {p} v h =
    let pending = take p.pb_pending_frames (drop p.pb_pending_offset p.pb_pending) in
    let plain : length pending ≡ p.pb_pending_frames = omega (
      arith,
      v.pending h,
      v.array_ok,
      length-take p.pb_pending_frames (drop p.pb_pending_offset p.pb_pending),
      length-drop p.pb_pending_offset p.pb_pending,
    ) in
    if-keep (λ (t : List Frame). length t ≡ p.pb_pending_frames)
      (not p.audio.volume_active && not (p.audio.media_volume == volume_max))
      (λ t.
        length-map frame_of (apply_media_volume p.audio.media_volume (map sample_of pending))
        ∙ length-apply_media_volume p.audio.media_volume (map sample_of pending)
        ∙ length-map sample_of pending
        ∙ plain)
      (λ t. plain)

at_least_mono : (m n : ℕ) (r : Reply) → at_least m r ≡ true → n ≤ m → at_least n r ≡ true
at_least_mono m n (done k) h l = ground arith
at_least_mono m n refused h l = absurd (cc)
at_least_mono m n overflow h l = absurd (cc)

abbrev rtc_bytes : Source → List Frame → List ℕ
rtc_bytes source fs = if is_rtc source then bytes_of fs else []

heard_lem :
    (source : Source) (fs : List Frame) (log : List (Source × List Frame))
    → heard ((source, fs) ∷ log) ≡ heard log ++ rtc_bytes source fs
unfolding heard
heard_lem rtc fs log = refl
heard_lem prompt fs log = sym (append-nil (heard log))
heard_lem silence fs log = sym (append-nil (heard log))

-- The reference ring gets the bytes of RTC audio that the device took; the session goes on.
reference_lem :
    (b : Build) (n : ℕ) (fs : List Frame) (p : Pipeline)
    → b.cloud_aec ≡ true
    → RingOk p.ref_ringbuf
    → length fs ≡ p.pb_pending_frames
    → n ≤ p.pb_pending_frames
    → (is_rtc p.pb_pending_source ≡ true
        → at_least (p.pb_pending_frames * 2) (get_free_size p.ref_ringbuf) ≡ true)
    → (o : Option Ring) × (reference b n fs p ≡ record p { ref_ringbuf = o })
      × RingOk o
      × (contents_of o ≡ contents_of p.ref_ringbuf ++ rtc_bytes p.pb_pending_source (take n fs))
unfolding reference
reference_lem b zero fs p e v l k room =
    (p.ref_ringbuf, ground arith, v, nothing p.pb_pending_source)
  where
    nothing :
        (source : Source)
        → contents_of p.ref_ringbuf ≡ contents_of p.ref_ringbuf ++ rtc_bytes source []
    nothing rtc = sym (append-nil (contents_of p.ref_ringbuf))
    nothing prompt = sym (append-nil (contents_of p.ref_ringbuf))
    nothing silence = sym (append-nil (contents_of p.ref_ringbuf))
reference_lem b (suc n) fs p e v l k room = elim (Bool-cases (is_rtc p.pb_pending_source)) [
  | inl c ↦
      let src = bytes_of (take (suc n) fs) in
      let taken : length src ≡ suc n * 2 =
        omega (arith, length-bytes_of (take (suc n) fs), length-take (suc n) fs) in
      let (contents_fit, stored) = write_room p.ref_ringbuf src (suc n * 2) v taken (omega arith) (
        at_least_mono (p.pb_pending_frames * 2) (suc n * 2) (get_free_size p.ref_ringbuf) (room c)
          (omega arith)) in
      let some_frames : ltb 0 (suc n) ≡ true = ground arith in
      (
        (write p.ref_ringbuf (some src) (pos (suc n * 2))).1,
        rw (e, some_frames, c, contents_fit) refl,
        write_ok p.ref_ringbuf src (suc n * 2) v,
        rw c stored,
      )
  | inr c ↦ (
    p.ref_ringbuf,
    rw (e, c) (ground arith),
    v,
    rw c (sym (append-nil (contents_of p.ref_ringbuf))),
  )
]

settle_pending-Good : {b : Build} {p : Pipeline} → Good b p → Good b (settle_pending p)
unfolding settle_pending
settle_pending-Good {b} {p} v =
    if-keep (Good b)
      (p.pb_pending_frames == 0 || not (get_generation p.announce == p.pb_pending_generation))
      (λ t. discard-Good v) (λ t. v)

account-Good :
    (b : Build) (fs : List Frame) (accepted : ℤ) (p : Pipeline)
    → b.cloud_aec ≡ true
    → Good b p
    → length fs ≡ p.pb_pending_frames
    → has_reference_room b p ≡ true
    → Good b (account b fs accepted p)
unfolding account has_reference_room
account-Good b fs (negsuc n) p e v l room = discard-Good v
account-Good b fs (pos n) p e v l room =
    if-keep (Good b) (ltb p.pb_pending_frames n) (λ t. discard-Good v)
      (λ t.
        let q = record p {
          pb_pending_offset = p.pb_pending_offset + n;
          played = (p.pb_pending_source, take n fs) ∷ p.played;
        } in
        let (o, same, fine, stored) =
          reference_lem b n fs q e v.ref_ok l (ground arith) (λ c. ground arith) in
        rw same (
          settle_pending-Good (record {
            cap_ok = v.cap_ok;
            pb_ok = v.pb_ok;
            ref_ok = fine;
            array_ok = v.array_ok;
            pending = λ h. ground arith;
            mirror =
                heard_lem p.pb_pending_source (take n fs) p.played
                ∙ ap (λ x. x ++ rtc_bytes p.pb_pending_source (take n fs)) v.mirror
                ∙ append_assoc p.ref_read (contents_of p.ref_ringbuf)
                    (rtc_bytes p.pb_pending_source (take n fs))
                ∙ ap (λ x. p.ref_read ++ x) (sym stored);
          })))

pub room_of :
    (b : Build) {p q : Pipeline}
    → Untouched p q
    → has_reference_room b p ≡ true
    → has_reference_room b q ≡ true
unfolding has_reference_room
room_of b u h = rw (u.source, u.frames, u.ref) h

pub write_pending-Good :
    (b : Build) (t : Turn) (p : Pipeline)
    → b.cloud_aec ≡ true
    → 0 < p.pb_pending_frames
    → Good b p
    → has_reference_room b p ≡ true
    → Good b (write_pending b t p)
unfolding write_pending
write_pending-Good b t p e h v room =
    let u = other_calls-Untouched t.at_write p in
    if-keep (Good b) (not (get_generation p.announce == p.pb_pending_generation))
      (λ k. discard-Good v)
      (λ k.
        account-Good b (write_data p) t.accepted (other_calls t.at_write p) e (Untouched-Good u v)
          (length-write_data v h ∙ sym u.frames) (room_of b u room))
