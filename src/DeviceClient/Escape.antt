-- ===== src/DeviceClient/Escape.antt =====
-- An encoded path segment keeps the value and adds no structure to the URL.
use mybot.DeviceClient.{url_unreserved, upper_hex, escape, encode_from, encode_path_segment}
use mybot.Common.{
  ap, ◌∙◌, inr, ◌%◌, inl, Option-cases, Bool-cases, subst, refl, false, ◌/◌, length, ◌*◌, [], arith,
  ◌+◌, ◌-◌, ◌==◌, ◌∷◌, ◌||◌, leb, ◌++◌, some, true, Bool, if◌then◌else◌, ◌≡◌, ◌<◌, Text, ℕ, All,
  all-append, all, length-append,
}

unfoldable pub hex_value : ℕ → ℕ
hex_value c = if leb b'A' c then c - b'A' + 10 else c - b'0'

-- Percent decoding.
unfoldable pub decode : Text → Text
decode (c ∷ a ∷ b ∷ cs) =
    let escaped = decode cs in
    let plain = decode (a ∷ b ∷ cs) in
    if c == b'%' then (hex_value a * 16 + hex_value b) ∷ escaped else c ∷ plain
decode t = t

unfoldable pub segment_byte : ℕ → Bool
segment_byte c = url_unreserved c || c == b'%'

hex_value-upper_hex : (d : ℕ) → d < 16 → hex_value (upper_hex d) ≡ d
unfolding hex_value upper_hex
hex_value-upper_hex d h = ground arith

upper_hex_unreserved : (d : ℕ) → d < 16 → url_unreserved (upper_hex d) ≡ true
unfolding url_unreserved upper_hex
upper_hex_unreserved d h = ground arith

not_percent : (c : ℕ) → url_unreserved c ≡ true → (c == b'%') ≡ false
unfolding url_unreserved
not_percent c h = ground arith

decode_plain : (c : ℕ) (t : Text) → (c == b'%') ≡ false → decode (c ∷ t) ≡ c ∷ decode t
unfolding decode
decode_plain c [] h = refl
decode_plain c (a ∷ []) h = refl
decode_plain c (a ∷ b ∷ t) h = rw h refl

decode_escaped :
    (a b : ℕ) (t : Text) → decode (b'%' ∷ a ∷ b ∷ t) ≡ (hex_value a * 16 + hex_value b) ∷ decode t
unfolding decode
decode_escaped a b t = refl

decode-escape : (c : ℕ) (t : Text) → c < 256 → decode (escape c ++ t) ≡ c ∷ decode t
unfolding escape
decode-escape c t h = elim (Bool-cases (url_unreserved c)) [
  | inl e ↦ rw e (decode_plain c t (not_percent c e))
  | inr e ↦
      let high = hex_value-upper_hex (c / 16) (omega arith) in
      let low = hex_value-upper_hex (c % 16) (omega arith) in
      let value : hex_value (upper_hex (c / 16)) * 16 + hex_value (upper_hex (c % 16)) ≡ c =
        omega arith in
      rw e
        (decode_escaped (upper_hex (c / 16)) (upper_hex (c % 16)) t ∙ ap (λ k. k ∷ decode t) value)
]

escape_bytes : (c : ℕ) → c < 256 → all segment_byte (escape c) ≡ true
unfolding escape segment_byte
escape_bytes c h = ground (arith, upper_hex_unreserved (c / 16), upper_hex_unreserved (c % 16))

length-escape : (c : ℕ) → length (escape c) ≡ (if url_unreserved c then 1 else 3)
unfolding escape
length-escape c = ground arith

decode-nil : decode [] ≡ []
unfolding decode
decode-nil = refl

some_inj : {a b : Text} → some a ≡ some b → a ≡ b
some_inj e = ground arith

encode_from_lem :
    (size offset : ℕ) (value : Text) {out : Text}
    → All (λ c. c < 256) value
    → offset < size
    → encode_from size offset value ≡ some out
    → (decode out ≡ value) × (all segment_byte out ≡ true) × (offset + length out < size)
unfolding encode_from
encode_from_lem size offset [] {out} h k e =
    subst (λ t. (decode t ≡ []) × (all segment_byte t ≡ true) × (offset + length t < size))
      (some_inj e) (decode-nil, refl, omega arith)
encode_from_lem size offset (c ∷ cs) {out} (h, hs) k e =
    let needed : ℕ = if url_unreserved c then 1 else 3 in
    elim (Option-cases (encode_from size (offset + needed) cs)) [
      | inl n ↦ absurd (ground arith)
      | inr (t, s) ↦
          let room : offset + needed < size = ground arith in
          let same : escape c ++ t ≡ out = ground arith in
          let (back, bytes, fits) = encode_from_lem size (offset + needed) cs hs room s in
          subst
            (λ u. (decode u ≡ c ∷ cs) × (all segment_byte u ≡ true) × (offset + length u < size))
            same
            (
              decode-escape c t h ∙ ap (λ r. c ∷ r) back,
              all-append segment_byte (escape c) t (escape_bytes c h) bytes,
              omega (arith, length-append (escape c) t, length-escape c),
            )
    ]

-- An encoded segment decodes to the value, has only unreserved bytes and percent signs, in particular no
-- slash, and is shorter than the array that it is written to.
pub encode_path_segment_lem :
    (value : Text) (size : ℕ) {out : Text}
    → All (λ c. c < 256) value
    → encode_path_segment value size ≡ some out
    → (decode out ≡ value) × (all segment_byte out ≡ true) × (length out < size)
unfolding encode_path_segment
encode_path_segment_lem value size {out} h e =
    let r = encode_from_lem size 0 value {out = out} h in ground (arith, r)
