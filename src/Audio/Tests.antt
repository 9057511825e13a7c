-- ===== src/Audio/Tests.antt =====
-- Volumes and samples at concrete inputs.
use mybot.Audio.{gain_q16, scale, clamp16, apply_media_volume}
use mybot.Common.{map, refl, [], ◌≡◌, negsuc, ◌∷◌, pos, arith, ℤ, List, All}
use mybot.Audio.Gain.{IsSample, apply_media_volume-Quieter, Quieter}

abbrev samples : List ℤ
samples = pos 32767 ∷ negsuc 32767 ∷ pos 1 ∷ negsuc 0 ∷ []

samples-IsSample : All IsSample samples
samples-IsSample = ground arith

apply_media_volume-Quieter_example :
    (apply_media_volume 50 samples ≡ map (scale (gain_q16 50)) samples)
    × Quieter samples (apply_media_volume 50 samples)
apply_media_volume-Quieter_example =
    apply_media_volume-Quieter 50 samples (omega arith) samples-IsSample

-- Half of -32768 is -16384, and half of -1 is 0.
halved : apply_media_volume 50 samples ≡ pos 16384 ∷ negsuc 16383 ∷ pos 1 ∷ pos 0 ∷ []
unfolding apply_media_volume clamp16 scale gain_q16
halved = refl
