-- ===== src/Common/Numerals.antt =====
-- Numbers in C strings: the loops that read digits until another byte, and the digits that printing writes.
use Prim.Native.Nat.{ℕ, zero, suc, ◌+◌, ◌-◌, ◌*◌, ◌/◌, ◌%◌, ◌≤◌, ◌<◌}
use mathlib.Core.Path.{◌≡◌, refl, ap, ◌∙◌}
use mathlib.Core.Bool.{Bool, true, false, ◌&&◌}
use mathlib.Core.Option.{Option, none, some}
use mathlib.Core.List.{append_assoc, append_assoc, List, [], ◌∷◌, ◌++◌}
use native.Mathlib.Omega.{arith}
use native.Mathlib.Decide.{dec_lt}
use mybot.Common.Tests.{ltb, leb, if◌then◌else◌, lt→ltb, not_lt→ltb}

abbrev pub is_digit : ℕ → Bool
is_digit c = leb b'0' c && leb c b'9'

unfoldable pub decimal_digit : ℕ → Option ℕ
decimal_digit c = if is_digit c then some (c - b'0') else none

-- `none` where the next digit does not fit. The flag says whether a digit has been read.
unfoldable pub scan :
    (ℕ → ℕ → Bool) → (ℕ → Option ℕ) → ℕ → ℕ → Bool → List ℕ → Option (ℕ × Bool × List ℕ)
scan fits digit base acc seen [] = some (acc, seen, [])
scan fits digit base acc seen (c ∷ cs) = elim (digit c) [
  | none ↦ some (acc, seen, c ∷ cs)
  | some d ↦ if fits acc d then scan fits digit base (acc * base + d) true cs else none
]

-- The shortest numeral, most significant digit first; `fuel` above the number is enough.
unfoldable pub numeral : ℕ → (ℕ → ℕ) → ℕ → ℕ → List ℕ
numeral base glyph zero n = []
numeral base glyph (suc fuel) n = elim (ltb n base) [
  | true ↦ glyph n ∷ []
  | false ↦ numeral base glyph fuel (n / base) ++ (glyph (n % base) ∷ [])
]

unfoldable pub decimal : ℕ → List ℕ
decimal n = numeral 10 (λ d. b'0' + d) (n + 1) n

module _ (fits : ℕ → ℕ → Bool) (digit : ℕ → Option ℕ) (base : ℕ) (glyph : ℕ → ℕ) (most : ℕ)
    (room : (a d : ℕ) → a * base + d ≤ most → fits a d ≡ true)
    (reads : (d : ℕ) → d < base → digit (glyph d) ≡ some d)
    (splits : (n : ℕ) → base ≤ n → n / base < n)
    (joins : (n : ℕ) → (n / base * base + n % base ≡ n) × (n % base < base)) where
  pub scan-numeral :
      (fuel n : ℕ) (seen : Bool) (rest : List ℕ)
      → n < fuel
      → n ≤ most
      → scan fits digit base 0 seen (numeral base glyph fuel n ++ rest)
        ≡ scan fits digit base n true rest
  unfolding scan numeral
  scan-numeral zero n seen rest h m = absurd (omega arith)
  scan-numeral (suc fuel) n seen rest h m = elim (dec_lt n base) [
    | yes p ↦
        rw
          (
            numeral,
            lt→ltb n base p,
            scan,
            reads n p,
            room 0 n (let e : 0 * base + n ≤ most = omega arith in e),
          )
          (ap (λ k. scan fits digit base k true rest) (let e : 0 * base + n ≡ n = omega arith in e))
    | no p ↦
        let e = joins n in
        let q = splits n (omega arith) in
        let last : scan fits digit base (n / base) true (glyph (n % base) ∷ rest)
            ≡ scan fits digit base n true rest =
          rw (scan, reads (n % base) e.1, room (n / base) (n % base) (omega (arith, e.0)), e.0)
            refl in
        rw
          (
            numeral,
            not_lt→ltb n base (omega arith),
            append_assoc (numeral base glyph fuel (n / base)) (glyph (n % base) ∷ []) rest,
          )
          (scan-numeral fuel (n / base) seen (glyph (n % base) ∷ rest) (omega arith) (omega arith)
            ∙ last)
  ]
