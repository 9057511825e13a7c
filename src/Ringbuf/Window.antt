-- ===== src/Ringbuf/Window.antt =====
-- The bytes that a ring holds, and what a copy into its array does to them.

use mybot.Common.{
  mod-eq-sub-mod, mod-eq_of_lt, lt→ltb, dec_lt, refl, [], ◌∙◌, zero, length-drop, ◌-◌, length-take,
  ◌∷◌, ltb, suc, length-append, ap, if◌then◌else◌, arith, ◌^◌, take, ◌≡◌, drop, ◌++◌, ◌≤◌, ◌%◌,
  tabulate, get_or, ◌+◌, length, ◌<◌, List, ℕ,
}
use mybot.Ringbuf.{used, memcpy, Ring}

pub record IsValid (rb : Ring) : Type 0 where
  pub storage : length rb.buf ≡ rb.size
  pub head_in : rb.head < rb.size
  pub tail_in : rb.tail < rb.size
  pub small : rb.size ≤ 2 ^ 30

-- The byte at distance `i` from index `t`, going round.
abbrev pub at : List ℕ → ℕ → ℕ → ℕ → ℕ
at buf size t i = get_or buf ((t + i) % size) 0

-- Oldest byte first.
unfoldable pub contents : Ring → List ℕ
contents rb = tabulate (used rb) (at rb.buf rb.size rb.tail)

pub get_or-append :
    (xs ys : List ℕ) (i : ℕ)
    → get_or (xs ++ ys) i 0
      ≡ (if ltb i (length xs) then get_or xs i 0 else get_or ys (i - length xs) 0)
get_or-append [] ys i = ground (arith, ap (λ k. get_or ys k 0) (sub_zero i))
  where
    sub_zero : (i : ℕ) → i ≡ i - 0
    sub_zero i = omega arith
get_or-append (x ∷ xs) ys zero = ground arith
get_or-append (x ∷ xs) ys (suc i) = ground (arith, get_or-append xs ys i)

pub get_or-take : (n : ℕ) (xs : List ℕ) (i : ℕ) → i < n → get_or (take n xs) i 0 ≡ get_or xs i 0
get_or-take zero xs i h = absurd (omega arith)
get_or-take (suc n) [] i h = refl
get_or-take (suc n) (x ∷ xs) zero h = refl
get_or-take (suc n) (x ∷ xs) (suc i) h = get_or-take n xs i (omega arith)

pub get_or-drop : (n : ℕ) (xs : List ℕ) (i : ℕ) → get_or (drop n xs) i 0 ≡ get_or xs (n + i) 0
get_or-drop zero xs i = ap (λ k. get_or xs k 0) (omega arith)
get_or-drop (suc n) [] i = refl
get_or-drop (suc n) (x ∷ xs) i =
    get_or-drop n xs i
    ∙ ap (λ k. get_or (x ∷ xs) k 0) (let e : suc (n + i) ≡ suc n + i = omega arith in e)

-- A copy inside the array replaces the bytes that it covers and no other.
pub get_or-memcpy :
    (buf : List ℕ) (p : ℕ) (bytes : List ℕ) (j : ℕ)
    → p + length bytes ≤ length buf
    → get_or (memcpy buf p bytes) j 0 ≡ (
        if ltb j p
        then get_or buf j 0
        else if ltb j (p + length bytes)
        then get_or bytes (j - p) 0
        else get_or buf j 0)
unfolding memcpy
get_or-memcpy buf p bytes j h = ground (
  arith,
  get_or-append (take p buf) (bytes ++ rest) j,
  length-take p buf,
  get_or-take p buf j,
  get_or-append bytes rest (j - p),
  get_or-drop (p + length bytes) buf (j - p - length bytes),
  ap (λ k. get_or (bytes ++ rest) (j - k) 0) covered,
  λ (g : p + length bytes ≤ j). ap (λ k. get_or buf k 0) (back g),
)
  where
    rest : List ℕ
    rest = drop (p + length bytes) buf

    covered : length (take p buf) ≡ p
    covered = omega (arith, length-take p buf)

    back : p + length bytes ≤ j → p + length bytes + (j - p - length bytes) ≡ j
    back g = omega arith

pub length-memcpy :
    (buf : List ℕ) (p : ℕ) (bytes : List ℕ)
    → p + length bytes ≤ length buf
    → length (memcpy buf p bytes) ≡ length buf
unfolding memcpy
length-memcpy buf p bytes h = omega (
  arith,
  length-append (take p buf) (bytes ++ drop (p + length bytes) buf),
  length-append bytes (drop (p + length bytes) buf),
  length-take p buf,
  length-drop (p + length bytes) buf,
)

-- An index that has gone round at most once.
pub wrap : (size a : ℕ) → a < size + size → a % size ≡ (if ltb a size then a else a - size)
wrap size a h = elim (dec_lt a size) [
  | yes p ↦ rw (lt→ltb a size p) (mod-eq_of_lt p)
  | no p ↦ ground (
    arith,
    mod-eq-sub-mod {n = a} {m = size} (omega arith),
    mod-eq_of_lt {n = a - size} {m = size} (omega arith),
  )
]
