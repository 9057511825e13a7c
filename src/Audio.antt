-- ===== src/Audio.antt =====
-- src/media/mybot_audio.c: the volume of the device, and the software volume of PCM samples.
-- A sample is a ℤ of 16 bits. An answer of the platform's volume implementation is an argument.
pub mod Gain
pub mod Volume
mod Tests
use mybot.Common.{
  [], ◌∷◌, ◌||◌, some, within, true, map, none, ◌==◌, ltb, leb, not, if◌then◌else◌, pos, negsuc,
  List, Option, ℕ, Bool, false, ℤ, ◌+◌, ◌-◌, ◌*◌, ◌/◌,
}

-- Which of the optional operations the implementation has.
pub record VolumeOps : Type 0 where
  pub can_set : Bool
  pub can_get : Bool

-- `mybot_audio_t`; `capture_ops` and `playback_ops` are whether the platform has them. `handed` is no
-- field of the source: it logs the values that the implementation's `set_volume` was called with, the
-- last one first.
pub record Audio : Type 0 where
  pub capture_ops : Bool
  pub playback_ops : Bool
  pub volume_ops : Option VolumeOps
  pub volume_active : Bool
  pub device_volume : ℤ
  pub media_volume : ℕ
  pub handed : List ℤ

abbrev pub volume_max : ℕ
volume_max = 100

unfoldable pub context_init : Bool → Bool → Option VolumeOps → Audio
context_init capture playback ops = record {
  capture_ops = capture;
  playback_ops = playback;
  volume_ops = ops;
  volume_active = false;
  device_volume = pos volume_max;
  media_volume = volume_max;
  handed = [];
}

-- `started` is whether the implementation initialises, `reported` the volume that it reports.
unfoldable pub device_volume_init : Bool → Option ℤ → Audio → Bool × Audio
device_volume_init started reported audio =
    if audio.volume_active then (false, audio) else elim audio.volume_ops [
      | none ↦ (false, audio)
      | some ops ↦
          if not started then (false, audio) else elim (if ops.can_get then reported else none) [
            | none ↦ (true, record audio { volume_active = true })
            | some v ↦ (true, record audio { volume_active = true; device_volume = v })
          ]
    ]

unfoldable pub device_volume_deinit : Audio → Audio
device_volume_deinit audio = record audio { volume_active = false }

-- `taken` is whether the implementation takes the value.
unfoldable pub device_set_volume : Bool → ℤ → Audio → Bool × Audio
device_set_volume taken volume audio =
    if not (within 0 volume_max volume) || not audio.volume_active
    then (false, audio)
    else elim audio.volume_ops [
      | none ↦ (false, audio)
      | some ops ↦
          if not ops.can_set
          then (false, audio)
          else if not taken
          then (false, record audio { handed = volume ∷ audio.handed })
          else (true, record audio { device_volume = volume; handed = volume ∷ audio.handed })
    ]

-- `reported` is the answer of the implementation's `get_volume`.
unfoldable pub device_get_volume : Option ℤ → Audio → Option ℤ
device_get_volume reported audio = if not audio.volume_active then none else elim audio.volume_ops [
  | none ↦ none
  | some ops ↦ if ops.can_get then reported else some audio.device_volume
]

unfoldable pub set_media_volume : ℤ → Audio → Bool × Audio
set_media_volume (negsuc n) audio = (false, audio)
set_media_volume (pos n) audio =
    if ltb volume_max n then (false, audio) else (true, record audio { media_volume = n })

-- `(volume << 16) / 100`
unfoldable pub gain_q16 : ℕ → ℕ
gain_q16 volume = volume * 65536 / volume_max

-- `(s * gain + 0x8000) >> 16`, a division by 65536 rounded down.
unfoldable pub scale : ℕ → ℤ → ℤ
scale gain (pos n) = pos ((n * gain + 32768) / 65536)
scale gain (negsuc n) =
    if leb ((n + 1) * gain) 32768
    then pos ((32768 - (n + 1) * gain) / 65536)
    else negsuc (((n + 1) * gain - 32768 - 1) / 65536)

-- The clamp to INT16_MIN and INT16_MAX.
unfoldable pub clamp16 : ℤ → ℤ
clamp16 (pos n) = if ltb 32767 n then pos 32767 else pos n
clamp16 (negsuc n) = if ltb 32767 n then negsuc 32767 else negsuc n

unfoldable pub apply_media_volume : ℕ → List ℤ → List ℤ
apply_media_volume volume pcm =
    if volume == volume_max
    then pcm
    else if volume == 0
    then map (λ s. pos 0) pcm
    else map (λ s. clamp16 (scale (gain_q16 volume) s)) pcm
