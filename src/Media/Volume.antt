-- ===== src/Media/Volume.antt =====
-- The playback volume of the pipeline.
use mybot.Audio.{Audio, set_media_volume, device_set_volume, volume_max, device_get_volume}
use mybot.Media.{Pipeline}
use mybot.Common.{
  min, ◌∷◌, refl, arith, ◌≤◌, true, ◌≡◌, ◌+ℤ◌, ℕ, none, some, false, within, not, ltb,
  if◌then◌else◌, pos, negsuc, Option, Bool, ℤ,
}

-- The clamp to MYBOT_AUDIO_VOLUME_MIN and MYBOT_AUDIO_VOLUME_MAX.
unfoldable pub clamp_volume : ℤ → ℕ
clamp_volume (negsuc n) = 0
clamp_volume (pos n) = if ltb volume_max n then volume_max else n

-- `taken` is whether the device takes the value.
unfoldable pub set_volume : Bool → ℤ → Pipeline → Bool × Pipeline
set_volume taken volume p =
    if not (within 0 volume_max volume)
    then (false, p)
    else (let (result, audio') =
          if p.audio.volume_active
          then device_set_volume taken volume p.audio
          else set_media_volume volume p.audio in
        (result, record p { audio = audio' }))

-- The volume that `adjust_volume` starts from; `reported` is the answer of the device.
unfoldable pub current_volume : Option ℤ → Pipeline → Option ℤ
current_volume reported p =
    if p.audio.volume_active
    then elim (device_get_volume reported p.audio) [
      | none ↦ none
      | some v ↦ if within 0 volume_max v then some v else none
    ]
    else some (pos p.audio.media_volume)

unfoldable pub adjust_volume : Bool → Option ℤ → ℤ → Pipeline → Bool × Pipeline
adjust_volume taken reported delta p =
    if not (within volume_max volume_max delta)
    then (false, p)
    else elim (current_volume reported p) [
      | none ↦ (false, p)
      | some v ↦ set_volume taken (pos (clamp_volume (v +ℤ delta))) p
    ]

-- Whether a volume can be set: in software always, on the device if it has the operation.
abbrev pub is_settable : Audio → Bool
is_settable audio =
    if audio.volume_active
    then elim audio.volume_ops [ none ↦ false | some ops ↦ ops.can_set ]
    else true

-- The volume of the range that is nearest to a value.
abbrev pub nearest : ℤ → ℕ
nearest (negsuc n) = 0
nearest (pos n) = min volume_max n

-- The audio context in which a volume was set: handed to the device and remembered, or in software.
abbrev pub at_volume : ℕ → Audio → Audio
at_volume n audio =
    if audio.volume_active
    then record audio { device_volume = pos n; handed = pos n ∷ audio.handed }
    else record audio { media_volume = n }

nearest_bound : (v : ℤ) → nearest v ≤ volume_max
nearest_bound (pos n) = omega arith
nearest_bound (negsuc n) = omega arith

clamp_lem : (v : ℤ) → clamp_volume v ≡ nearest v
unfolding clamp_volume
clamp_lem (pos n) = ground arith
clamp_lem (negsuc n) = refl

set_lem :
    (n : ℕ) (p : Pipeline)
    → n ≤ volume_max
    → is_settable p.audio ≡ true
    → set_volume true (pos n) p ≡ (true, record p { audio = at_volume n p.audio })
unfolding set_volume device_set_volume set_media_volume
set_lem n p h s = ground arith

-- With a valid adjustment, a volume to start from, one that can be set and a device, if there is one,
-- that takes it, the adjustment succeeds and changes the volume alone, to the volume of 0 to 100 that is
-- nearest to the sum: without a volume on the device it is the software volume, and otherwise it is handed
-- to the device, once, and remembered. `reported` is what the device answers before.
pub adjust-current :
    (reported : Option ℤ) (delta v : ℤ) (p : Pipeline)
    → within volume_max volume_max delta ≡ true
    → current_volume reported p ≡ some v
    → is_settable p.audio ≡ true
    → adjust_volume true reported delta p
      ≡ (true, record p { audio = at_volume (nearest (v +ℤ delta)) p.audio })
unfolding adjust_volume
adjust-current reported delta v p d e s =
    rw (d, e, clamp_lem (v +ℤ delta))
      (set_lem (nearest (v +ℤ delta)) p (nearest_bound (v +ℤ delta)) s)
