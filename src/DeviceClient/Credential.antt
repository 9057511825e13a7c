-- ===== src/DeviceClient/Credential.antt =====
-- The credential header passes the HTTP client's check of extra headers.
use mybot.DeviceClient.{build_authorization_header}
use mybot.HttpClient.Headers.{
  extra_headers_are_safe, header_value_is_safe, header_name_char, header_value_char,
}
use mybot.HttpClient.Headers.Injection.{Field, WellFormed, render, extra_headers_iff}
use mybot.HttpClient.Headers.Bytes.{ValueByte, name_char_byte, header_value_char_byte}
use mybot.Common.{
  inl, All, all-All, ◌||◌, none, ◌==◌, ◌∙◌, ◌&&◌, refl, sym, ◌<◌, ltb, length, ap, arith, not, [],
  false, true, ℕ, ◌≡◌, ◌++◌, some, Option, ◌∷◌, Text, all, codes, append_assoc,
}

abbrev pub field : Text → Text → Field
field scheme credential = record {
  name = codes "Authorization";
  value = b' ' ∷ (scheme ++ credential);
}

value_lem :
    (credential : Text)
    → header_value_is_safe (some credential) false ≡ true
    → all header_value_char credential ≡ true
unfolding header_value_is_safe header_value_char
value_lem credential h = same_test credential (ground arith)
  where
    same_test :
        (t : Text)
        → all (λ c. not ((ltb c 32 && not (false && c == b'\t')) || ltb 126 c)) t ≡ true
        → all (λ c. not ((ltb c 32 && not (c == b'\t')) || ltb 126 c)) t ≡ true
    same_test [] h = refl
    same_test (c ∷ cs) h = ground (arith, same_test cs)

rendered :
    (scheme credential : Text)
    → codes "Authorization: " ++ (scheme ++ (credential ++ (b'\r' ∷ b'\n' ∷ [])))
      ≡ render (field scheme credential ∷ [])
unfolding render
rendered scheme credential =
    ap (λ t. codes "Authorization: " ++ t)
      (sym (append_assoc scheme credential (b'\r' ∷ b'\n' ∷ [])))

well_formed :
    (scheme credential : Text)
    → All ValueByte scheme
    → All ValueByte credential
    → WellFormed (field scheme credential)
unfolding WellFormed
well_formed scheme credential s c = (
  omega arith,
  all-All header_name_char (codes "Authorization") name_char_byte (unfold header_name_char in refl),
  (unfold ValueByte in inl (omega arith, omega arith), values scheme s),
)
  where
    values : (t : Text) → All ValueByte t → All ValueByte (t ++ credential)
    values [] h = c
    values (x ∷ xs) (h, hs) = (h, values xs hs)

-- A credential header that is built, from a scheme of value bytes, is shorter than its array, passes
-- the check of extra headers and is one header line: the field Authorization, whose value is a blank,
-- the scheme and the credential and has no line end.
pub authorization_header_accepted :
    (scheme : Text) (credential : Option Text) (size : ℕ) {header : Text}
    → All ValueByte scheme
    → build_authorization_header scheme credential size ≡ some header
    → (extra_headers_are_safe (some header) ≡ true)
      × ((token : Text) × (credential ≡ some token)
          × WellFormed (field scheme token)
          × (header ≡ render (field scheme token ∷ [])))
      × (length header < size)
unfolding build_authorization_header
authorization_header_accepted scheme none size s e = absurd (cc)
authorization_header_accepted scheme (some credential) size {header} s e =
    let safe : header_value_is_safe (some credential) false ≡ true = ground arith in
    let good =
      well_formed scheme credential s
        (all-All header_value_char credential header_value_char_byte (value_lem credential safe)) in
    let same : codes "Authorization: " ++ (scheme ++ (credential ++ (b'\r' ∷ b'\n' ∷ [])))
        ≡ header =
      ground arith in
    let short : length header < size = ground arith in
    let line = sym same ∙ rendered scheme credential in
    (
      (extra_headers_iff header).1 (field scheme credential ∷ [], (good, tt), line),
      (credential, refl, good, line),
      short,
    )
