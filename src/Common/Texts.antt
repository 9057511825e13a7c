-- ===== src/Common/Texts.antt =====
-- C strings: the bytes before the terminating zero.
use Prim.Native.Nat.{ℕ, zero, suc, ◌-◌, ◌<◌}
use Prim.Native.Char.{code}
use Prim.Native.String.{String}
use mathlib.Core.Path.{◌≡◌, refl, ap₂}
use mathlib.Core.Bool.{Bool, true, false, ◌&&◌}
use mathlib.Core.Option.{Option, none, some}
use mathlib.Core.List.{List, [], ◌∷◌, ◌++◌}
use native.Mathlib.Omega.{arith}
use mybot.Common.Lists.{take}
use mybot.Common.Tests.{◌==◌}

abbrev pub Text : Type 0
Text = List ℕ

-- The bytes of an ASCII literal. (`String` has its own `[]` and `∷`.)
abbrev pub codes : String → Text
codes String.[] = []
codes (String.◌∷◌ c s) = code c ∷ codes s

abbrev pub is_empty : Text → Bool
is_empty [] = true
is_empty (c ∷ cs) = false

-- `strcmp(a, b) == 0`
unfoldable pub text_eq : Text → Text → Bool
text_eq [] [] = true
text_eq [] (d ∷ ds) = false
text_eq (c ∷ cs) [] = false
text_eq (c ∷ cs) (d ∷ ds) = c == d && text_eq cs ds

pub text_eq_refl : (a : Text) → text_eq a a ≡ true
unfolding text_eq
text_eq_refl [] = refl
text_eq_refl (c ∷ cs) = ground (arith, text_eq_refl cs)

pub eq_of_text_eq : (a b : Text) → text_eq a b ≡ true → a ≡ b
unfolding text_eq
eq_of_text_eq [] [] h = refl
eq_of_text_eq [] (d ∷ ds) h = absurd (cc)
eq_of_text_eq (c ∷ cs) [] h = absurd (cc)
eq_of_text_eq (c ∷ cs) (d ∷ ds) h = ap₂ ◌∷◌ (ground arith) (eq_of_text_eq cs ds (ground arith))

-- The bytes after a literal that the string starts with: `strncmp(s, lit, n) == 0` and `s + n`.
unfoldable pub strip : Text → Text → Option Text
strip [] s = some s
strip (c ∷ cs) [] = none
strip (c ∷ cs) (d ∷ ds) = elim (c == d) [ true ↦ strip cs ds | false ↦ none ]

pub strip-append : (a b : Text) → strip a (a ++ b) ≡ some b
unfolding strip
strip-append [] b = refl
strip-append (c ∷ cs) b = ground (arith, strip-append cs b)

-- `strncpy` into an array of `capacity` bytes that stays zero-terminated.
unfoldable pub copy_text : ℕ → Text → Text
copy_text capacity t = take (capacity - 1) t

is_empty-take : (n : ℕ) (t : Text) → 0 < n → is_empty (take n t) ≡ is_empty t
is_empty-take zero t h = absurd (omega arith)
is_empty-take (suc n) [] h = refl
is_empty-take (suc n) (c ∷ cs) h = refl

pub is_empty-copy_text : (n : ℕ) (t : Text) → 1 < n → is_empty (copy_text n t) ≡ is_empty t
unfolding copy_text
is_empty-copy_text n t h = is_empty-take (n - 1) t (omega arith)
