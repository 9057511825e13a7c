-- ===== src/HttpClient/Chunked/Encode.antt =====
-- Decoding a body in chunks gives back their bytes.
use mybot.HttpClient.Chunked.{
  hex_digit, chunk_fits, after_crlf, skip_extension, size_line, trailers_end, dechunk, dechunk_body,
}
use mybot.Common.{
  zero, drop-append, take-append, refl, suc, ◌-◌, some, arith, [], false, ◌≡◌, ◌++◌, ◌+◌, ◌*◌, ◌∷◌,
  ◌≤◌, ltb, length, true, ◌<◌, List, if◌then◌else◌, ℕ, numeral, scan, scan-numeral, length-append,
  size_max, All,
}

unfoldable pub hex_glyph : ℕ → ℕ
hex_glyph d = if ltb d 10 then b'0' + d else b'a' + (d - 10)

-- The body that a server sends: each chunk behind its size line, an empty one at the end, no trailers.
unfoldable pub encode : List (List ℕ) → List ℕ
encode [] = b'0' ∷ b'\r' ∷ b'\n' ∷ b'\r' ∷ b'\n' ∷ []
encode (c ∷ cs) =
    numeral 16 hex_glyph (length c + 1) (length c)
    ++ (b'\r' ∷ b'\n' ∷ (c ++ (b'\r' ∷ b'\n' ∷ encode cs)))

unfoldable pub concat : List (List ℕ) → List ℕ
concat [] = []
concat (c ∷ cs) = c ++ concat cs

hex_digit-glyph : (d : ℕ) → d < 16 → hex_digit (hex_glyph d) ≡ some d
unfolding hex_digit hex_glyph
hex_digit-glyph d h = ground arith

fits_lem : (a d : ℕ) → a * 16 + d ≤ size_max → chunk_fits a d ≡ true
unfolding chunk_fits
fits_lem a d h = ground arith

scan_size :
    (n : ℕ) (rest : List ℕ)
    → n ≤ size_max
    → scan chunk_fits hex_digit 16 0 false (numeral 16 hex_glyph (n + 1) n ++ (b'\r' ∷ rest))
      ≡ some (n, true, b'\r' ∷ rest)
unfolding scan hex_digit
scan_size n rest h =
    scan-numeral chunk_fits hex_digit 16 hex_glyph size_max fits_lem hex_digit-glyph
      (λ n k. omega arith) (λ n. (omega arith, omega arith)) (n + 1) n false (b'\r' ∷ rest)
      (omega arith) h

size_line_lem :
    (n : ℕ) (rest : List ℕ)
    → n ≤ size_max
    → size_line (numeral 16 hex_glyph (n + 1) n ++ (b'\r' ∷ b'\n' ∷ rest)) ≡ some (n, rest)
unfolding size_line after_crlf skip_extension
size_line_lem n rest h = rw (scan_size n (b'\n' ∷ rest) h) refl

length-encode : (chunks : List (List ℕ)) → length (concat chunks) + 5 ≤ length (encode chunks)
unfolding encode concat
length-encode [] = omega arith
length-encode (c ∷ cs) = omega (
  arith,
  length-encode cs,
  length-append c (concat cs),
  length-append (numeral 16 hex_glyph (length c + 1) (length c))
      (b'\r' ∷ b'\n' ∷ (c ++ (b'\r' ∷ b'\n' ∷ encode cs))),
  length-append c (b'\r' ∷ b'\n' ∷ encode cs),
)

after_lem : (rest : List ℕ) → after_crlf (b'\r' ∷ b'\n' ∷ rest) ≡ some rest
unfolding after_crlf
after_lem rest = refl

end_lem : trailers_end true (b'\r' ∷ b'\n' ∷ []) ≡ true
unfolding trailers_end
end_lem = refl

last_line : size_line (b'0' ∷ b'\r' ∷ b'\n' ∷ b'\r' ∷ b'\n' ∷ []) ≡ some (0, b'\r' ∷ b'\n' ∷ [])
unfolding size_line after_crlf skip_extension scan hex_digit chunk_fits
last_line = refl

dechunk_lem :
    (fuel body_len len : ℕ) (chunks : List (List ℕ))
    → length (encode chunks) < fuel
    → len + length (concat chunks) ≤ body_len
    → body_len ≤ size_max
    → All (λ c. 0 < length c) chunks
    → dechunk fuel body_len len (encode chunks) ≡ some (concat chunks)
unfolding dechunk encode concat
dechunk_lem zero body_len len chunks h k m full = absurd (omega arith)
dechunk_lem (suc fuel) body_len len [] h k m full = rw (last_line, end_lem) refl
dechunk_lem (suc fuel) body_len len (c ∷ cs) h k m full =
    let rest = b'\r' ∷ b'\n' ∷ encode cs in
    let total = length-append c (concat cs) in
    let whole = length-append c rest in
    rw
      (
        size_line_lem (length c) (c ++ rest) (omega arith),
        take-append c rest,
        drop-append c rest,
        after_lem (encode cs),
        dechunk_lem fuel body_len (len + length c) cs (omega (arith, size_positive c cs))
            (omega arith) m full.1,
      )
      (ground (arith, full.0))
  where
    size_positive :
        (c : List ℕ) (cs : List (List ℕ)) → length (encode cs) < length (encode (c ∷ cs))
    size_positive c cs = omega (
      arith,
      length-append (numeral 16 hex_glyph (length c + 1) (length c))
          (b'\r' ∷ b'\n' ∷ (c ++ (b'\r' ∷ b'\n' ∷ encode cs))),
      length-append c (b'\r' ∷ b'\n' ∷ encode cs),
    )

-- A body of non-empty chunks, shorter than 2^64 bytes, decodes to the bytes of the chunks in order.
pub dechunk-encode :
    (chunks : List (List ℕ))
    → length (encode chunks) ≤ size_max
    → All (λ c. 0 < length c) chunks
    → dechunk_body true (encode chunks) ≡ some (concat chunks)
unfolding dechunk_body
dechunk-encode chunks h full =
    dechunk_lem (length (encode chunks) + 1) (length (encode chunks)) 0 chunks (omega arith)
      (omega (arith, length-encode chunks)) h full
