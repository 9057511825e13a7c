-- ===== src/Media/Playback.antt =====
-- The playback worker. What the platform answers and the calls of other threads in between are the
-- record `Turn`.
use mybot.Media.{
  Build, Pipeline, rtc, prompt, is_rtc, is_prompt, frame_samples, frame_bytes,
  discard_pending_playback,
}
use mybot.Media.Buffers.{is_done, at_least, bytes_of, frames_of, drain_ringbuf}
use mybot.Media.Session.{OtherCall, other_calls}
use mybot.Ringbuf.{get_data_size, get_free_size, read, write}
use mybot.Announce.{Frame, read_pcm, is_active, get_generation}
use mybot.Audio.{apply_media_volume, volume_max}
use mybot.Common.{
  some, ◌∷◌, length, false, true, ◌-◌, ◌++◌, not, negsuc, ◌&&◌, ◌==◌, ltb, pos, ◌||◌, List, ℕ, ℤ,
  if◌then◌else◌, Bool, replicate, take, drop, ◌+◌, ◌*◌, ◌%◌, ◌/◌, map,
}

-- `accepted` is what the device's `write` returns.
pub record Turn : Type 0 where
  pub deliver : ℕ → List Frame
  pub accepted : ℤ
  pub at_start : List OtherCall
  pub at_check : List OtherCall
  pub at_write : List OtherCall

abbrev pub sample_of : Frame → ℤ
sample_of (low, high) =
    if ltb high 128 then pos (low + 256 * high) else negsuc (65535 - (low + 256 * high))

abbrev pub frame_of : ℤ → Frame
frame_of (pos n) = (n % 256, n / 256)
frame_of (negsuc n) = ((65535 - n) % 256, (65535 - n) / 256)

-- A flush that was asked for, or a new generation of announcements.
unfoldable pub refresh : Build → Pipeline → Pipeline
refresh b p =
    if p.announce_clear_pb || not (p.pb_pending_generation == get_generation p.announce)
    then record (discard_pending_playback p) {
      announce_clear_pb = false;
      pb_ringbuf = drain_ringbuf (frame_bytes b) p.pb_ringbuf;
      pb_pending_generation = get_generation p.announce;
    }
    else p

-- While an announcement is active, RTC audio is dropped.
unfoldable pub preempt : Build → Bool → Pipeline → Pipeline
preempt b active p =
    if not active
    then p
    else (let drained = record p { pb_ringbuf = drain_ringbuf (frame_bytes b) p.pb_ringbuf } in
        if ltb 0 p.pb_pending_frames && not (is_prompt p.pb_pending_source)
        then discard_pending_playback drained
        else drained)

-- `generation` is the one that the worker saw when it started.
unfoldable pub prepare_pending_playback :
    Build → (ℕ → List Frame) → Bool → ℕ → Pipeline → Bool × Pipeline
prepare_pending_playback b deliver active generation p =
    if active
    then (let (frames, tag, announce') = read_pcm deliver (frame_samples b) p.announce in
        let filled = record p {
          announce = announce';
          pb_pending = frames ++ replicate (frame_samples b - length frames) (0, 0);
          pb_pending_generation = tag;
        } in
        if length frames == 0 then (false, filled) else (
          true,
          record filled {
            pb_pending_offset = 0;
            pb_pending_frames = frame_samples b;
            pb_pending_source = prompt;
          },
        ))
    else if not (at_least (frame_bytes b) (get_data_size p.pb_ringbuf))
    then (false, p)
    else (let (reply, bytes, rest) = read p.pb_ringbuf true (pos (frame_bytes b)) in
        if not (is_done (frame_bytes b) reply) then (false, record p { pb_ringbuf = rest }) else (
          true,
          record p {
            pb_ringbuf = rest;
            pb_pending = frames_of bytes;
            pb_pending_generation = generation;
            pb_pending_offset = 0;
            pb_pending_frames = frame_samples b;
            pb_pending_source = rtc;
          },
        ))

-- The samples for the device: at the software volume, unless the device has its own.
unfoldable pub write_data : Pipeline → List Frame
write_data p =
    let pending = take p.pb_pending_frames (drop p.pb_pending_offset p.pb_pending) in
    if not p.audio.volume_active && not (p.audio.media_volume == volume_max)
    then map frame_of (apply_media_volume p.audio.media_volume (map sample_of pending))
    else pending

-- The echo reference of the first `written` of the frames, which the device has taken.
unfoldable pub reference : Build → ℕ → List Frame → Pipeline → Pipeline
reference b written frames p =
    if b.cloud_aec && ltb 0 written && is_rtc p.pb_pending_source
    then (let (reply, ring) =
          write p.ref_ringbuf (some (bytes_of (take written frames))) (pos (written * 2)) in
        if is_done (written * 2) reply
        then record p { ref_ringbuf = ring }
        else record p { ref_ringbuf = ring; rtc_connected = false })
    else p

unfoldable pub settle_pending : Pipeline → Pipeline
settle_pending p =
    if p.pb_pending_frames == 0 || not (get_generation p.announce == p.pb_pending_generation)
    then discard_pending_playback p
    else p

-- After the device's `write` of `frames` returns `accepted`.
unfoldable pub account : Build → List Frame → ℤ → Pipeline → Pipeline
account b frames (negsuc n) p = discard_pending_playback p
account b frames (pos n) p =
    if ltb p.pb_pending_frames n
    then discard_pending_playback p
    else (let q = reference b n frames (record p {
      pb_pending_offset = p.pb_pending_offset + n;
      played = (p.pb_pending_source, take n frames) ∷ p.played;
    }) in
        settle_pending (record q { pb_pending_frames = q.pb_pending_frames - n }))

-- The write of what is pending, if its generation is still the current one.
unfoldable pub write_pending : Build → Turn → Pipeline → Pipeline
write_pending b t p =
    if not (get_generation p.announce == p.pb_pending_generation)
    then discard_pending_playback p
    else account b (write_data p) t.accepted (other_calls t.at_write p)

unfoldable pub has_reference_room : Build → Pipeline → Bool
has_reference_room b p =
    not (b.cloud_aec && is_rtc p.pb_pending_source)
    || at_least (p.pb_pending_frames * 2) (get_free_size p.ref_ringbuf)

unfoldable pub playback_timer : Build → Turn → Pipeline → Pipeline
playback_timer b t p =
    if not p.running
    then p
    else (let generation = get_generation p.announce in
        let q = other_calls t.at_start (refresh b p) in
        let active = is_active q.announce in
        let r = preempt b active q in
        let (ready, s) =
          if r.pb_pending_frames == 0
          then prepare_pending_playback b t.deliver active generation r
          else (true, r) in
        if not ready || not (has_reference_room b s)
        then s
        else write_pending b t (other_calls t.at_check s))
