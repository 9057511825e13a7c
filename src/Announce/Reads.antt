-- ===== src/Announce/Reads.antt =====
-- Reading the queue ends and fills at most the room that there is.
use mybot.Announce.{Announce, null_at, advance, read_rounds, read_pcm, Frame}
use mybot.Common.{
  inr, not, inl, ◌||◌, ◌++◌, ◌==◌, zero, ◌>>=◌, if-keep, Bool-cases, refl, [], ltb, ap, ◌<◌, suc,
  none, false, ◌∷◌, ◌-◌, ◌+◌, some, arith, ◌≡◌, ◌≤◌, Option, length, List, leb, ℕ, length-append,
}

length-null_at : (i : ℕ) (hs : List (Option ℕ)) → length (null_at i hs) ≡ length hs
unfolding null_at
length-null_at i [] = refl
length-null_at zero (h ∷ hs) = refl
length-null_at (suc i) (h ∷ hs) = ap suc (length-null_at i hs)

-- The sounds that are left after the one at `queue_pos` is passed.
advance_left :
    (a : Announce)
    → leb (length a.handles) a.queue_pos ≡ false
    → length (advance a).handles - (advance a).queue_pos + 1 ≡ length a.handles - a.queue_pos
unfolding advance
advance_left a h = ground (arith, length-null_at a.queue_pos a.handles)

-- More fuel than room and sounds: the amount does not matter.
rounds_fuel :
    (m n : ℕ) (deliver : ℕ → List Frame) (i room : ℕ) (a : Announce)
    → room + (length a.handles - a.queue_pos) < m
    → room + (length a.handles - a.queue_pos) < n
    → read_rounds m deliver i room a ≡ read_rounds n deliver i room a
unfolding read_rounds
rounds_fuel zero n deliver i room a h k = absurd (omega arith)
rounds_fuel (suc m) zero deliver i room a h k = absurd (omega arith)
rounds_fuel (suc m) (suc n) deliver i room a h k =
    elim (Bool-cases (room == 0 || leb (length a.handles) a.queue_pos)) [
      | inl e ↦ rw e refl
      | inr e ↦ elim (Bool-cases (ltb room (length (deliver i)))) [
        | inl e1 ↦ rw (e, e1) refl
        | inr e1 ↦ elim (Bool-cases (length (deliver i) == 0)) [
          | inl e2 ↦
              let l = advance_left a (ground arith) in
              rw (e, e1, e2)
                (rounds_fuel m n deliver (i + 1) room (advance a) (omega arith) (omega arith))
          | inr e2 ↦
              let low : 0 < length (deliver i) = ground arith in
              rw
                (
                  e,
                  e1,
                  e2,
                  rounds_fuel m n deliver (i + 1) (room - length (deliver i)) a (ground arith)
                      (ground arith),
                )
                refl
        ]
      ]
    ]

Fits : ℕ → Option (List Frame) × Announce → Type 0
Fits room (none, a) = Unit
Fits room (some fs, a) = length fs ≤ room

rounds_fit :
    (fuel : ℕ) (deliver : ℕ → List Frame) (i room : ℕ) (a : Announce)
    → Fits room (read_rounds fuel deliver i room a)
unfolding read_rounds Fits
rounds_fit zero deliver i room a = omega arith
rounds_fit (suc fuel) deliver i room a =
    if-keep (Fits room) (room == 0 || leb (length a.handles) a.queue_pos) (λ t. omega arith)
      (λ t.
        if-keep (Fits room) (ltb room (length (deliver i))) (λ t. tt)
          (λ t.
            if-keep (Fits room) (length (deliver i) == 0)
              (λ k. rounds_fit fuel deliver (i + 1) room (advance a))
              (λ k.
                joined (read_rounds fuel deliver (i + 1) (room - length (deliver i)) a)
                  (rounds_fit fuel deliver (i + 1) (room - length (deliver i)) a) t)))
  where
    joined :
        (r : Option (List Frame) × Announce)
        → Fits (room - length (deliver i)) r
        → ltb room (length (deliver i)) ≡ false
        → Fits room (r.0 >>= λ fs. some (deliver i ++ fs), r.1)
    joined (none, b) f t = tt
    joined (some fs, b) f t = ground (arith, length-append (deliver i) fs)

took_lem :
    (max_frames : ℕ) (r : Option (List Frame) × Announce)
    → Fits max_frames r
    → length (elim r.0 as (λ o. List Frame) [ none ↦ [] | some fs ↦ fs ]) ≤ max_frames
unfolding Fits
took_lem max_frames (none, a) f = omega arith
took_lem max_frames (some fs, a) f = f

-- A read delivers at most the frames that there is room for, with any answers of the platform.
pub length-read_pcm :
    (deliver : ℕ → List Frame) (max_frames : ℕ) (a : Announce)
    → length (read_pcm deliver max_frames a).0 ≤ max_frames
unfolding read_pcm
length-read_pcm deliver max_frames a =
    if-keep (λ (r : List Frame × ℕ × Announce). length r.0 ≤ max_frames)
      (max_frames == 0 || not a.registered || not a.active) (λ t. omega arith)
      (λ t.
        took (read_rounds (max_frames + length a.handles + 1) deliver 0 max_frames a)
          (rounds_fit (max_frames + length a.handles + 1) deliver 0 max_frames a))
  where
    took :
        (r : Option (List Frame) × Announce)
        → Fits max_frames r
        → length (elim r.0 as (λ o. List Frame) [ none ↦ [] | some fs ↦ fs ]) ≤ max_frames
    took r f = took_lem max_frames r f
