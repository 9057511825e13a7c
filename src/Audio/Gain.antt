-- ===== src/Audio/Gain.antt =====
-- The software volume never overflows a sample and never makes one louder.
use native.Mathlib.Nat.{mul-le-mul_left}
use mybot.Audio.{gain_q16, scale, clamp16, apply_media_volume, volume_max}
use mybot.Common.{
  Bool-cases, inl, inr, ap₂, length-map, length, sym, subst, ◌==◌, [], refl, if-keep, arith, ◌∷◌,
  negsuc, pos, ◌≡◌, All, ◌≤◌, List, ℤ, ℕ, ◌*◌, ◌+◌, map,
}

abbrev pub IsSample : ℤ → Type 0
IsSample (pos n) = n ≤ 32767
IsSample (negsuc n) = n ≤ 32767

-- The second is between zero and the first.
abbrev pub NoLouder : ℤ → ℤ → Type 0
NoLouder (pos n) (pos m) = m ≤ n
NoLouder (pos n) (negsuc m) = ⊥
NoLouder (negsuc n) (pos m) = m ≡ 0
NoLouder (negsuc n) (negsuc m) = m ≤ n

-- Sample by sample, in the same order.
abbrev pub Quieter : List ℤ → List ℤ → Type 0
Quieter [] [] = Unit
Quieter [] (t ∷ ts) = ⊥
Quieter (s ∷ ss) [] = ⊥
Quieter (s ∷ ss) (t ∷ ts) = NoLouder s t × Quieter ss ts

gain_bound : (v : ℕ) → v ≤ volume_max → gain_q16 v ≤ 65536
unfolding gain_q16
gain_bound v h = omega arith

product : (n g : ℕ) → g ≤ 65536 → n * g ≤ n * 65536
product n g h = mul-le-mul_left n h

scale-NoLouder : (g : ℕ) (s : ℤ) → g ≤ 65536 → NoLouder s (scale g s)
unfolding scale
scale-NoLouder g (pos n) h = let p = product n g h in omega arith
scale-NoLouder g (negsuc n) h = let p = product (n + 1) g h in ground arith

clamp16_lem : (s t : ℤ) → IsSample s → NoLouder s t → clamp16 t ≡ t
unfolding clamp16
clamp16_lem (pos n) (pos m) h k = ground arith
clamp16_lem (pos n) (negsuc m) h k = absurd k
clamp16_lem (negsuc n) (pos m) h k = ground arith
clamp16_lem (negsuc n) (negsuc m) h k = ground arith

-- The gain of the full volume changes nothing.
scale_full : (s : ℤ) → scale (gain_q16 volume_max) s ≡ s
unfolding scale gain_q16
scale_full (pos n) = ground arith
scale_full (negsuc n) = ground arith

scale_none : (s : ℤ) → scale (gain_q16 0) s ≡ pos 0
unfolding scale gain_q16
scale_none (pos n) = ground arith
scale_none (negsuc n) = ground arith

map-All :
    (f g : ℤ → ℤ)
    → (pcm : List ℤ) → ((s : ℤ) → IsSample s → f s ≡ g s)
    → All IsSample pcm
    → map f pcm ≡ map g pcm
map-All f g [] h a = refl
map-All f g (s ∷ ss) h a = ap₂ (λ x xs. x ∷ xs) (h s a.0) (map-All f g ss h a.1)

map_full : (pcm : List ℤ) → pcm ≡ map (scale (gain_q16 volume_max)) pcm
map_full [] = refl
map_full (s ∷ ss) = ap₂ (λ x xs. x ∷ xs) (sym (scale_full s)) (map_full ss)

clamp_unneeded :
    (volume : ℕ) (pcm : List ℤ)
    → volume ≤ volume_max
    → All IsSample pcm
    → apply_media_volume volume pcm ≡ map (scale (gain_q16 volume)) pcm
unfolding apply_media_volume
clamp_unneeded volume pcm h a = elim (Bool-cases (volume == volume_max)) [
  | inl e ↦ let full : volume ≡ volume_max = ground arith in rw (e, full) (map_full pcm)
  | inr e ↦ elim (Bool-cases (volume == 0)) [
    | inl z ↦
        let none_left : volume ≡ 0 = ground arith in
        rw (e, z, none_left)
          (map-All (λ s. pos 0) (scale (gain_q16 0)) pcm (λ s k. sym (scale_none s)) a)
    | inr z ↦
        rw (e, z)
          (map-All (λ s. clamp16 (scale (gain_q16 volume) s)) (scale (gain_q16 volume)) pcm
            (λ s k.
              clamp16_lem s (scale (gain_q16 volume) s) k
                (scale-NoLouder (gain_q16 volume) s (gain_bound volume h)))
            a)
  ]
]

Quieter-map : (g : ℕ) (pcm : List ℤ) → g ≤ 65536 → Quieter pcm (map (scale g) pcm)
Quieter-map g [] h = tt
Quieter-map g (s ∷ ss) h = (scale-NoLouder g s h, Quieter-map g ss h)

-- At a volume of at most 100 each 16-bit sample is scaled by the gain of the volume, also at 0 and 100,
-- and the clamp changes none: the result has one sample for each, between it and zero.
pub apply_media_volume-Quieter :
    (volume : ℕ) (pcm : List ℤ)
    → volume ≤ volume_max
    → All IsSample pcm
    → (apply_media_volume volume pcm ≡ map (scale (gain_q16 volume)) pcm)
      × Quieter pcm (apply_media_volume volume pcm)
apply_media_volume-Quieter volume pcm h a =
    let same = clamp_unneeded volume pcm h a in
    (same, subst (Quieter pcm) (sym same) (Quieter-map (gain_q16 volume) pcm (gain_bound volume h)))

pub length-apply_media_volume :
    (volume : ℕ) (pcm : List ℤ) → length (apply_media_volume volume pcm) ≡ length pcm
unfolding apply_media_volume
length-apply_media_volume volume pcm =
    if-keep (λ (t : List ℤ). length t ≡ length pcm) (volume == volume_max) (λ e. refl)
      (λ e.
        if-keep (λ (t : List ℤ). length t ≡ length pcm) (volume == 0)
          (λ z. length-map (λ s. pos 0) pcm)
          (λ z. length-map (λ s. clamp16 (scale (gain_q16 volume) s)) pcm))
