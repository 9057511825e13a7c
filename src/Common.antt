-- ===== src/Common.antt =====
-- The names that the other modules share: the libraries', passed on, and those of the children.
mod Tests
mod Lists
mod Words
mod Texts
mod Numerals
pub use Tests.*
pub use Lists.*
pub use Words.*
unfoldable pub use Texts.{Text, codes, is_empty, text_eq, copy_text, strip}
unfoldable pub use Numerals.{scan, numeral, decimal, is_digit, decimal_digit}
pub use Numerals.{scan-numeral}
pub use Texts.{text_eq_refl, strip-append, eq_of_text_eq, is_empty-copy_text}
pub use Prim.Native.Nat.{ℕ, zero, suc, ◌+◌, ◌-◌, ◌*◌, ◌/◌, ◌%◌, ◌^◌, ◌≤◌, ◌<◌, min}
pub use mathlib.Core.Path.{◌≡◌, refl, sym, ap, ap₂, subst, ◌∙◌}
pub use mathlib.Core.Logic.{◌≢◌, ◌↔◌, ◌⊎◌, inl, inr}
pub use mathlib.Core.Bool.{Bool, true, false, not, ◌&&◌, ◌||◌}
pub use mathlib.Core.Option.{Option, none, some}
pub use mathlib.Core.List.{append_assoc, append-nil, List, [], ◌∷◌, ◌++◌, map}
pub use native.Mathlib.Omega.{arith}
unfoldable pub use native.Mathlib.Decide.{dec_lt}
pub use native.Mathlib.Nat.{mod-eq_of_lt, mod-eq-sub-mod}
