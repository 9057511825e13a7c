-- ===== src/Media/Capture.antt =====
-- The capture worker and the send worker.
use mybot.Media.{Build, Pipeline, frame_samples, frame_bytes}
use mybot.Media.Buffers.{is_done, at_least, bytes_of, frames_of}
use mybot.Ringbuf.{get_data_size, read, write}
use mybot.Announce.{Frame}
use mybot.Common.{
  ◌+◌, ltb, ◌==◌, ◌*◌, length, pos, true, ◌||◌, [], ℕ, some, not, ◌∷◌, if◌then◌else◌, List,
  replicate, ◌++◌,
}

-- A write that the ring does not take counts as dropped.
unfoldable pub capture_frames : List Frame → Pipeline → Pipeline
capture_frames frames p =
    let (reply, ring) = write p.cap_ringbuf (some (bytes_of frames)) (pos (length frames * 2)) in
    if is_done (length frames * 2) reply
    then record p { cap_ringbuf = ring }
    else record p { cap_ringbuf = ring; cap_drop_count = p.cap_drop_count + 1 }

-- `captured` is what the device delivers: no frames are an error or no data.
unfoldable pub capture_timer : Build → List Frame → Pipeline → Pipeline
capture_timer b captured p =
    if not p.running
      || length captured == 0
      || ltb (frame_samples b) (length captured)
      || not p.rtc_connected
    then p
    else capture_frames captured p

-- A sample of the microphone, then one of the reference.
unfoldable pub interleave : List Frame → List Frame → List Frame
interleave [] refs = []
interleave (m ∷ ms) [] = []
interleave (m ∷ ms) (r ∷ rs) = m ∷ r ∷ interleave ms rs

unfoldable pub send_with_reference : Build → List ℕ → Pipeline → Pipeline
send_with_reference b mic p =
    if at_least (frame_bytes b) (get_data_size p.ref_ringbuf)
    then (let (reply, bytes, ring) = read p.ref_ringbuf true (pos (frame_bytes b)) in
        record p {
          ref_ringbuf = ring;
          ref_read = p.ref_read ++ bytes;
          sent = bytes_of (interleave (frames_of mic) (frames_of bytes)) ∷ p.sent;
        })
    else record p {
      sent = bytes_of (interleave (frames_of mic) (replicate (frame_samples b) (0, 0))) ∷ p.sent;
    }

unfoldable pub send_timer : Build → Pipeline → Pipeline
send_timer b p =
    if not p.running
      || not p.rtc_connected
      || not (at_least (frame_bytes b) (get_data_size p.cap_ringbuf))
    then p
    else (let (reply, mic, ring) = read p.cap_ringbuf true (pos (frame_bytes b)) in
        let q = record p { cap_ringbuf = ring } in
        if not (is_done (frame_bytes b) reply)
        then q
        else if b.cloud_aec
        then send_with_reference b mic q
        else record q { sent = mic ∷ q.sent })
