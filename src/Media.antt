-- ===== src/Media.antt =====
-- src/media/mybot_media_pipeline.c: audio between the devices, the announcements and the RTC session.
-- A frame is a 16-bit sample of the one channel. The scratch arrays that a timer fills before it reads
-- them are not part of the state, and a drain into the array of pending audio, after which nothing is
-- pending, leaves that array as it was. `wake words`, which are off by default, are left out.
pub mod Buffers
pub mod Rings
pub mod Drained
pub mod Playback
pub mod Capture
pub mod Session
pub mod Start
pub mod Resources
pub mod Volume
pub mod Flush
pub mod Preempt
pub mod Valid
pub mod Pending
pub mod Echo
pub mod Reference
mod Tests
use mybot.Common.{replicate, pos, [], List, none, ◌*◌, Option, false, Bool, true, ℕ}
use mybot.Ringbuf.{Ring, Reply, done, refused, overflow}
use mybot.Announce.{Announce, Frame, unused}
use mybot.Audio.{Audio, context_init}

pub data Source : Type 0 where
  silence rtc prompt : Source

abbrev pub is_rtc : Source → Bool
is_rtc rtc = true
is_rtc silence = false
is_rtc prompt = false

abbrev pub is_prompt : Source → Bool
is_prompt prompt = true
is_prompt silence = false
is_prompt rtc = false

-- The build options: MYBOT_AUDIO_PTIME_MS, of 20, 40 or 60, and MYBOT_CLOUD_AEC.
pub record Build : Type 0 where
  pub ptime_ms : ℕ
  pub cloud_aec : Bool

-- 16000 samples a second.
abbrev pub frame_samples : Build → ℕ
frame_samples b = 16 * b.ptime_ms

abbrev pub frame_bytes : Build → ℕ
frame_bytes b = frame_samples b * 2

-- Two seconds.
abbrev pub ringbuf_size : ℕ
ringbuf_size = 64000

-- `mybot_media_pipeline_t`. A context is whether its pointer is set, a queue and a timer whether it is
-- valid. `played` and `sent` are what the playback device took and what was given to `send_audio`,
-- newest first, and `ref_read` what the send worker has read of the echo reference, in its turns and in
-- the flush of a session, oldest first. `pb_pending` is an array of the samples of one frame.
pub record Pipeline : Type 0 where
  pub initialized : Bool
  pub running : Bool
  pub rtc_connected : Bool
  pub audio : Audio
  pub announce : Announce
  pub cap_ctx : Bool
  pub cap_started : Bool
  pub cap_mpq : Bool
  pub cap_ringbuf : Option Ring
  pub cap_drop_count : ℕ
  pub pb_ctx : Bool
  pub pb_started : Bool
  pub pb_mpq : Bool
  pub pb_ringbuf : Option Ring
  pub announce_clear_pb : Bool
  pub pb_pending : List Frame
  pub pb_pending_offset : ℕ
  pub pb_pending_frames : ℕ
  pub pb_pending_source : Source
  pub pb_pending_generation : ℕ
  pub stop_complete : Bool
  pub ref_ringbuf : Option Ring
  pub send_mpq : Bool
  pub played : List (Source × List Frame)
  pub sent : List (List ℕ)
  pub ref_read : List ℕ

-- `mybot_media_pipeline_init`
unfoldable pub pipeline_init : Build → Pipeline
pipeline_init b = record {
  initialized = true;
  running = false;
  rtc_connected = false;
  audio = record {
    capture_ops = false;
    playback_ops = false;
    volume_ops = none;
    volume_active = false;
    device_volume = pos 0;
    media_volume = 0;
    handed = [];
  };
  announce = unused;
  cap_ctx = false;
  cap_started = false;
  cap_mpq = false;
  cap_ringbuf = none;
  cap_drop_count = 0;
  pb_ctx = false;
  pb_started = false;
  pb_mpq = false;
  pb_ringbuf = none;
  announce_clear_pb = false;
  pb_pending = replicate (frame_samples b) (0, 0);
  pb_pending_offset = 0;
  pb_pending_frames = 0;
  pb_pending_source = silence;
  pb_pending_generation = 0;
  stop_complete = false;
  ref_ringbuf = none;
  send_mpq = false;
  played = [];
  sent = [];
  ref_read = [];
}

unfoldable pub discard_pending_playback : Pipeline → Pipeline
discard_pending_playback p = record p {
  pb_pending_offset = 0;
  pb_pending_frames = 0;
  pb_pending_source = silence;
}
