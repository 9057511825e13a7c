-- ===== src/HttpClient/Headers/Bytes.antt =====
-- The bytes that a header may have, said independently of the checks.
use mybot.HttpClient.Headers.{header_name_char, header_value_char}
use mybot.Common.{
  Bool-cases, ◌||◌, ◌≤◌, codes, ◌⊎◌, Bool, false, inr, inl, refl, All, arith, [], ◌==◌, true, ◌∷◌,
  ◌≡◌, Text, ℕ, all,
}

unfoldable pub OneOf : ℕ → Text → Type 0
OneOf c [] = ⊥
OneOf c (x ∷ xs) = (c ≡ x) ⊎ OneOf c xs

-- A letter, a digit or one of the marks of a token.
unfoldable pub TokenByte : ℕ → Type 0
TokenByte c =
    ((97 ≤ c) × (c ≤ 122))
    ⊎ (((65 ≤ c) × (c ≤ 90)) ⊎ (((48 ≤ c) × (c ≤ 57)) ⊎ OneOf c (codes "!#$%&*+-.^_|~")))

-- A printable byte or a tab; a line end is neither.
unfoldable pub ValueByte : ℕ → Type 0
ValueByte c = ((32 ≤ c) × (c ≤ 126)) ⊎ (c ≡ 9)

-- A test that every byte of a list passes.
pub All-all :
    (p : ℕ → Bool) (P : ℕ → Type 0) (xs : Text)
    → ((c : ℕ) → P c → p c ≡ true)
    → All P xs
    → all p xs ≡ true
All-all p P [] f h = refl
All-all p P (x ∷ xs) f (h, hs) = let k = f x h in let ks = All-all p P xs f hs in ground arith

one_of : ℕ → Text → Bool
one_of c [] = false
one_of c (x ∷ xs) = c == x || one_of c xs

one_of_lem : (c : ℕ) (xs : Text) → one_of c xs ≡ true → OneOf c xs
unfolding one_of OneOf
one_of_lem c [] h = absurd (cc)
one_of_lem c (x ∷ xs) h = elim (Bool-cases (c == x)) [
  | inl t ↦ inl (ground arith)
  | inr t ↦ inr (one_of_lem c xs (ground arith))
]

OneOf-lem : (p : ℕ → Bool) (c : ℕ) (xs : Text) → all p xs ≡ true → OneOf c xs → p c ≡ true
unfolding OneOf
OneOf-lem p c [] h k = absurd k
OneOf-lem p c (x ∷ xs) h (inl e) = rw e (ground arith)
OneOf-lem p c (x ∷ xs) h (inr k) = OneOf-lem p c xs (ground arith) k

pub name_char_byte : (c : ℕ) → header_name_char c ≡ true → TokenByte c
unfolding header_name_char TokenByte one_of
name_char_byte c h = go (by_test c h)
  where
    by_test :
        (c : ℕ)
        → header_name_char c ≡ true
        → ((97 ≤ c) × (c ≤ 122))
          ⊎ (((65 ≤ c) × (c ≤ 90))
              ⊎ (((48 ≤ c) × (c ≤ 57)) ⊎ (one_of c (codes "!#$%&*+-.^_|~") ≡ true)))
    by_test c h = ground arith

    go :
        ((97 ≤ c) × (c ≤ 122))
          ⊎ (((65 ≤ c) × (c ≤ 90))
              ⊎ (((48 ≤ c) × (c ≤ 57)) ⊎ (one_of c (codes "!#$%&*+-.^_|~") ≡ true)))
        → ((97 ≤ c) × (c ≤ 122))
          ⊎ (((65 ≤ c) × (c ≤ 90)) ⊎ (((48 ≤ c) × (c ≤ 57)) ⊎ OneOf c (codes "!#$%&*+-.^_|~")))
    go (inl r) = inl r
    go (inr (inl r)) = inr (inl r)
    go (inr (inr (inl r))) = inr (inr (inl r))
    go (inr (inr (inr r))) = inr (inr (inr (one_of_lem c (codes "!#$%&*+-.^_|~") r)))

pub TokenByte-char : (c : ℕ) → TokenByte c → header_name_char c ≡ true
unfolding header_name_char TokenByte
TokenByte-char c (inl r) = ground arith
TokenByte-char c (inr (inl r)) = ground arith
TokenByte-char c (inr (inr (inl r))) = ground arith
TokenByte-char c (inr (inr (inr r))) = OneOf-lem header_name_char c (codes "!#$%&*+-.^_|~") refl r

pub header_value_char_byte : (c : ℕ) → header_value_char c ≡ true → ValueByte c
unfolding header_value_char ValueByte
header_value_char_byte c h = ground arith

pub ValueByte-char : (c : ℕ) → ValueByte c → header_value_char c ≡ true
unfolding header_value_char ValueByte
ValueByte-char c (inl h) = ground arith
ValueByte-char c (inr h) = rw h refl
