-- ===== src/Audio/Volume.antt =====
-- The volume that the calls report.
use mybot.Common.{true, Option, false, negsuc, arith, some, pos, ◌≡◌, ℤ, ◌≤◌}
use mybot.Audio.{
  Audio, VolumeOps, device_set_volume, device_get_volume, set_media_volume, volume_max,
}

abbrev pub InRange : Audio → Type 0
InRange audio = audio.media_volume ≤ volume_max

pub set_media_volume-InRange :
    (v : ℤ) (audio : Audio) → InRange audio → InRange (set_media_volume v audio).1
unfolding set_media_volume
set_media_volume-InRange (pos n) audio h = ground arith
set_media_volume-InRange (negsuc n) audio h = h

-- Where the implementation cannot report a volume, the one that was set last is.
pub get_of_set :
    (v : ℤ) (audio audio' : Audio) (ops : VolumeOps)
    → audio.volume_ops ≡ some ops
    → ops.can_get ≡ false
    → (reported : Option ℤ) → device_set_volume true v audio ≡ (true, audio')
    → device_get_volume reported audio' ≡ some v
unfolding device_set_volume device_get_volume
get_of_set v audio audio' ops e f reported h = ground arith
