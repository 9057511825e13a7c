-- ===== src/Media/Pending.antt =====
-- What the playback worker has pending fills its array.
use mybot.Ringbuf.{get_data_size, read, Ring}
use mybot.Common.{
  false, length-replicate, pos, zero, length-append, ap, ◌-◌, refl, ◌&&◌, replicate, suc, [], ltb,
  ◌∷◌, true, not, ◌++◌, ◌==◌, arith, ◌*◌, ◌≤◌, ◌||◌, ◌≡◌, if◌then◌else◌, length, if-keep, ℕ, Bool,
  Option, List, ◌<◌,
}
use mybot.Media.{
  is_prompt, frame_samples, frame_bytes, Build, Pipeline, Source, rtc, prompt,
  discard_pending_playback,
}
use mybot.Media.Buffers.{is_done, at_least, bytes_of, drain_ringbuf, frames_of}
use mybot.Media.Rings.{RingOk, read_parts, read_there, drain_ringbuf_lem}
use mybot.Media.Valid.{Good, discard-Good}
use mybot.Media.Playback.{refresh, preempt, prepare_pending_playback}
use mybot.Announce.{get_generation, Announce, Frame, read_pcm}
use mybot.Ringbuf.{read}
use mybot.Announce.Reads.{length-read_pcm}

pub length-bytes_of : (fs : List Frame) → length (bytes_of fs) ≡ length fs * 2
length-bytes_of [] = refl
length-bytes_of (f ∷ fs) = omega (arith, length-bytes_of fs)

pub length-frames_of : (n : ℕ) (bs : List ℕ) → length bs ≡ n * 2 → length (frames_of bs) ≡ n
length-frames_of n [] h = omega arith
length-frames_of n (b ∷ []) h = absurd (omega arith)
length-frames_of zero (b ∷ c ∷ bs) h = absurd (omega arith)
length-frames_of (suc n) (b ∷ c ∷ bs) h = ap suc (length-frames_of n bs (omega arith))

-- A pipeline with a smaller or drained playback ring.
pub other_pb :
    {b : Build} {p : Pipeline} (o : Option Ring)
    → Good b p
    → RingOk o
    → Good b (record p { pb_ringbuf = o })
other_pb o v h = record {
  cap_ok = v.cap_ok;
  pb_ok = h;
  ref_ok = v.ref_ok;
  array_ok = v.array_ok;
  pending = v.pending;
  mirror = v.mirror;
}

pub refresh-Good : (b : Build) (p : Pipeline) → 0 < b.ptime_ms → Good b p → Good b (refresh b p)
unfolding refresh discard_pending_playback
refresh-Good b p h v =
    if-keep (Good b)
      (p.announce_clear_pb || not (p.pb_pending_generation == get_generation p.announce))
      (λ t. record {
        cap_ok = v.cap_ok;
        pb_ok = (drain_ringbuf_lem (frame_bytes b) p.pb_ringbuf v.pb_ok (omega arith)).0;
        ref_ok = v.ref_ok;
        array_ok = v.array_ok;
        pending = λ h. absurd (omega arith);
        mirror = v.mirror;
      })
      (λ t. v)

pub preempt-Good :
    (b : Build) (active : Bool) (p : Pipeline)
    → 0 < b.ptime_ms
    → Good b p
    → Good b (preempt b active p)
unfolding preempt
preempt-Good b active p h v =
    let drained =
      other_pb (drain_ringbuf (frame_bytes b) p.pb_ringbuf) v
        (drain_ringbuf_lem (frame_bytes b) p.pb_ringbuf v.pb_ok (omega arith)).0 in
    if-keep (Good b) (not active) (λ t. v)
      (λ t.
        if-keep (Good b) (ltb 0 p.pb_pending_frames && not (is_prompt p.pb_pending_source))
          (λ t. discard-Good drained) (λ t. drained))

-- Pending audio that fills its array.
filled :
    {b : Build} {p : Pipeline} (o : Option Ring) (announce' : Announce) (array : List Frame)
    (tag n : ℕ) (source : Source)
    → Good b p
    → RingOk o
    → length array ≡ frame_samples b
    → n ≤ frame_samples b
    → Good b (record p {
      pb_ringbuf = o;
      announce = announce';
      pb_pending = array;
      pb_pending_generation = tag;
      pb_pending_offset = 0;
      pb_pending_frames = n;
      pb_pending_source = source;
    })
filled o announce' array tag n source v h full k = record {
  cap_ok = v.cap_ok;
  pb_ok = h;
  ref_ok = v.ref_ok;
  array_ok = full;
  pending = λ l. omega arith;
  mirror = v.mirror;
}

idle-Good :
    {b : Build} {p : Pipeline} (announce' : Announce) (array : List Frame) (tag : ℕ)
    → p.pb_pending_frames ≡ 0
    → length array ≡ frame_samples b
    → Good b p
    → Good b (record p { announce = announce'; pb_pending = array; pb_pending_generation = tag })
idle-Good announce' array tag e full v = record {
  cap_ok = v.cap_ok;
  pb_ok = v.pb_ok;
  ref_ok = v.ref_ok;
  array_ok = full;
  pending = λ l. absurd (omega arith);
  mirror = v.mirror;
}

prompt_length :
    (n : ℕ) (fs : List Frame) → length fs ≤ n → length (fs ++ replicate (n - length fs) (0, 0)) ≡ n
prompt_length n fs h = omega (
  arith,
  length-append fs (replicate (n - length fs) (0, 0)),
  length-replicate {A = Frame} (n - length fs) (0, 0),
)

pub prepare-Good :
    (b : Build) (deliver : ℕ → List Frame) (active : Bool) (generation : ℕ) (p : Pipeline)
    → 0 < b.ptime_ms
    → p.pb_pending_frames ≡ 0
    → Good b p
    → Good b (prepare_pending_playback b deliver active generation p).1
unfolding prepare_pending_playback
prepare-Good b deliver true generation p h idle v =
    let got = read_pcm deliver (frame_samples b) p.announce in
    let array = got.0 ++ replicate (frame_samples b - length got.0) (0, 0) in
    let full =
      prompt_length (frame_samples b) got.0
        (length-read_pcm deliver (frame_samples b) p.announce) in
    if-keep (λ (r : Bool × Pipeline). Good b r.1) (length got.0 == 0)
      (λ t. idle-Good got.2 array got.1 idle full v)
      (λ t.
        filled p.pb_ringbuf got.2 array got.1 (frame_samples b) prompt v v.pb_ok full (omega arith))
prepare-Good b deliver false generation p h idle v =
    let o = read p.pb_ringbuf true (pos (frame_bytes b)) in
    let kept = (read_parts p.pb_ringbuf (frame_bytes b) v.pb_ok).0 in
    if-keep (λ (r : Bool × Pipeline). Good b r.1)
      (not (at_least (frame_bytes b) (get_data_size p.pb_ringbuf))) (λ t. v)
      (λ t.
        if-keep (λ (r : Bool × Pipeline). Good b r.1) (not (is_done (frame_bytes b) o.0))
          (λ k. other_pb o.2 v kept)
          (λ k.
            filled o.2 p.announce (frames_of o.1) generation (frame_samples b) rtc v kept
              (length-frames_of (frame_samples b) o.1
                (read_there p.pb_ringbuf (frame_bytes b) v.pb_ok (omega arith) (ground arith)).1)
              (omega arith)))

prepare_ready :
    (b : Build) (deliver : ℕ → List Frame) (active : Bool) (generation : ℕ) (p : Pipeline)
    → (if p.pb_pending_frames == 0
        then prepare_pending_playback b deliver active generation p
        else (true, p)).1
      ≡ (if p.pb_pending_frames == 0
          then (prepare_pending_playback b deliver active generation p).1
          else p)
prepare_ready b deliver active generation p = ground arith
