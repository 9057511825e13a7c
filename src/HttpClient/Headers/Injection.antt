-- ===== src/HttpClient/Headers/Injection.antt =====
-- Accepted extra headers are exactly lists of well-formed fields.
use mybot.HttpClient.Headers.{
  header_name_char, header_value_char, split_line, header_line_is_safe, lines_are_safe,
  extra_headers_are_safe,
}
use mybot.Common.{
  all-All, all-append, span-append, subst, ◌↔◌, Bool, length-append, false, zero, ap₂, ap, ◌∙◌, sym,
  inr, drop, suc, inl, ◌+◌, ◌&&◌, refl, All, arith, Option-cases, [], ◌==◌, true, ◌++◌, some, ◌∷◌,
  not, ◌≡◌, length, List, Text, ℕ, ◌<◌, span, all, is_empty, span_parts,
}
use mybot.HttpClient.Headers.Bytes.{
  TokenByte, ValueByte, All-all, name_char_byte, TokenByte-char, header_value_char_byte,
  ValueByte-char,
}

pub record Field : Type 0 where
  pub name : Text
  pub value : Text

-- `name:value` and the end of the line.
unfoldable pub render : List Field → Text
render [] = []
render (f ∷ fs) = (f.name ++ (b':' ∷ f.value)) ++ (b'\r' ∷ b'\n' ∷ render fs)

-- A name of token bytes, and a value of printable bytes and tabs.
unfoldable pub WellFormed : Field → Type 0
WellFormed f = (0 < length f.name) × All TokenByte f.name × All ValueByte f.value

split_parts :
    (p : Text) {line rest : Text}
    → split_line p ≡ some (line, rest)
    → p ≡ line ++ (b'\r' ∷ b'\n' ∷ rest)
unfolding split_line
split_parts [] e = absurd (cc)
split_parts (c ∷ []) e = absurd (cc)
split_parts (c ∷ d ∷ cs) e = elim (Option-cases (split_line (d ∷ cs))) [
  | inl n ↦ ground arith
  | inr ((line, rest), s) ↦ let later = split_parts (d ∷ cs) s in ground (arith, later)
]

line_field :
    (line : Text)
    → header_line_is_safe line ≡ true
    → (f : Field) × (WellFormed f) × (line ≡ f.name ++ (b':' ∷ f.value))
unfolding header_line_is_safe WellFormed
line_field line h =
    go (span (λ c. not (c == b':')) line).0 (span (λ c. not (c == b':')) line).1
      (span_parts (λ c. not (c == b':')) line) (head_fails line) h
  where
    head_fails :
        (line : Text)
        → (t : Text) → (c : ℕ) → (span (λ c. not (c == b':')) line).1 ≡ c ∷ t
        → c ≡ b':'
    head_fails [] t c e = absurd (cc)
    head_fails (x ∷ xs) t c e = ground (arith, head_fails xs t c)

    go :
        (name tail : Text)
        → name ++ tail ≡ line
        → ((t : Text) → (c : ℕ) → tail ≡ c ∷ t → c ≡ b':')
        → (not (is_empty tail)
            && not (is_empty name)
            && all header_name_char name
            && all header_value_char (drop 1 tail))
          ≡ true
        → (f : Field) × ((0 < length f.name) × All TokenByte f.name × All ValueByte f.value)
          × (line ≡ f.name ++ (b':' ∷ f.value))
    go name [] e c h = absurd (ground arith)
    go [] (x ∷ t) e c h = absurd (ground arith)
    go (n ∷ ns) (x ∷ t) e c h = (
      record { name = n ∷ ns; value = t },
      (
        omega arith,
        all-All header_name_char (n ∷ ns) name_char_byte (ground arith),
        all-All header_value_char t header_value_char_byte (ground arith),
      ),
      sym e ∙ ap (λ y. (n ∷ ns) ++ (y ∷ t)) (c t x refl),
    )

lines_fields :
    (fuel : ℕ) (p : Text)
    → lines_are_safe fuel p ≡ true
    → (fs : List Field) × (All WellFormed fs) × (p ≡ render fs)
unfolding lines_are_safe render
lines_fields zero p h = absurd (cc)
lines_fields (suc fuel) [] h = ([], tt, refl)
lines_fields (suc fuel) (c ∷ cs) h = elim (Option-cases (split_line (c ∷ cs))) [
  | inl n ↦ absurd (ground arith)
  | inr ((line, rest), s) ↦
      let (f, good, e) = line_field line (ground arith) in
      let (fs, goods, e') = lines_fields fuel rest (ground arith) in
      (f ∷ fs, (good, goods), split_parts (c ∷ cs) s ∙ ap₂ (λ a b. a ++ (b'\r' ∷ b'\n' ∷ b)) e e')
]

split-append :
    (line rest : Text)
    → all (λ c. not (c == b'\r')) line ≡ true
    → split_line (line ++ (b'\r' ∷ b'\n' ∷ rest)) ≡ some (line, rest)
unfolding split_line
split-append [] rest h = refl
split-append (c ∷ []) rest h = ground arith
split-append (c ∷ d ∷ cs) rest h = ground (arith, split-append (d ∷ cs) rest)

name_char_lem :
    (c : ℕ) → header_name_char c ≡ true → (not (c == b':') ≡ true) × (not (c == b'\r') ≡ true)
unfolding header_name_char
name_char_lem c h = ground arith

value_char_lem : (c : ℕ) → header_value_char c ≡ true → not (c == b'\r') ≡ true
unfolding header_value_char
value_char_lem c h = ground arith

all-map :
    (p q : ℕ → Bool) (xs : Text)
    → ((c : ℕ) → p c ≡ true → q c ≡ true)
    → all p xs ≡ true
    → all q xs ≡ true
all-map p q [] f h = refl
all-map p q (x ∷ xs) f h = ground (arith, f x, all-map p q xs f)

field_accepted :
    (f : Field) → WellFormed f → header_line_is_safe (f.name ++ (b':' ∷ f.value)) ≡ true
unfolding header_line_is_safe WellFormed
field_accepted f (some_name, tokens, values) =
    let name = All-all header_name_char TokenByte f.name TokenByte-char tokens in
    let value = All-all header_value_char ValueByte f.value ValueByte-char values in
    rw
      (span-append (λ c. not (c == b':')) f.name (b':' ∷ f.value)
        (all-map header_name_char (λ c. not (c == b':')) f.name (λ c h. (name_char_lem c h).0) name)
        refl)
      (ground (arith, full f.name))
  where
    full : (t : Text) → 0 < length t → is_empty t ≡ false
    full [] k = absurd (omega arith)
    full (c ∷ cs) k = refl

field_line :
    (f : Field) (rest : Text)
    → WellFormed f
    → split_line ((f.name ++ (b':' ∷ f.value)) ++ (b'\r' ∷ b'\n' ∷ rest))
      ≡ some (f.name ++ (b':' ∷ f.value), rest)
unfolding WellFormed
field_line f rest (some_name, tokens, values) =
    let name = All-all header_name_char TokenByte f.name TokenByte-char tokens in
    let value = All-all header_value_char ValueByte f.value ValueByte-char values in
    split-append (f.name ++ (b':' ∷ f.value)) rest (
      all-append (λ c. not (c == b'\r')) f.name (b':' ∷ f.value)
        (all-map header_name_char (λ c. not (c == b'\r')) f.name (λ c h. (name_char_lem c h).1)
          name)
        (all-map header_value_char (λ c. not (c == b'\r')) f.value value_char_lem value))

fields_accepted :
    (fuel : ℕ) (fs : List Field)
    → length (render fs) < fuel
    → All WellFormed fs
    → lines_are_safe fuel (render fs) ≡ true
unfolding lines_are_safe render
fields_accepted zero fs h good = absurd (omega arith)
fields_accepted (suc fuel) [] h good = refl
fields_accepted (suc fuel) (f ∷ fs) h (good, goods) =
    nonempty ((f.name ++ (b':' ∷ f.value)) ++ (b'\r' ∷ b'\n' ∷ render fs))
      (field_line f (render fs) good)
      (fields_accepted fuel fs
        (omega (arith, length-append (f.name ++ (b':' ∷ f.value)) (b'\r' ∷ b'\n' ∷ render fs)))
        goods)
  where
    nonempty :
        (p : Text)
        → split_line p ≡ some (f.name ++ (b':' ∷ f.value), render fs)
        → lines_are_safe fuel (render fs) ≡ true
        → lines_are_safe (suc fuel) p ≡ true
    nonempty [] e later = refl
    nonempty (c ∷ cs) e later = rw (lines_are_safe, e, field_accepted f good, later) refl

-- The check accepts exactly the renderings of lists of fields, each with a non-empty name of letters,
-- digits and the marks !#$%&*+-.^_|~ and a value of tabs and the bytes 32 to 126.
pub extra_headers_iff :
    (headers : Text)
    → (extra_headers_are_safe (some headers) ≡ true)
      ↔ ((fs : List Field) × (All WellFormed fs) × (headers ≡ render fs))
unfolding extra_headers_are_safe
extra_headers_iff headers = (
  lines_fields (length headers + 1) headers,
  λ (fs, good, e).
      subst (λ t. lines_are_safe (length t + 1) t ≡ true) (sym e)
        (fields_accepted (length (render fs) + 1) fs (omega arith) good),
)
