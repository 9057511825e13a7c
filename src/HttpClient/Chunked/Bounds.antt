-- ===== src/HttpClient/Chunked/Bounds.antt =====
-- The loop of `dechunk_body` ends, and what it decodes fits.
use mybot.HttpClient.Chunked.{
  hex_digit, chunk_fits, after_crlf, skip_extension, size_line, trailers_end, dechunk, dechunk_body,
}
use mybot.Common.{
  ◌||◌, take, zero, not, ◌*◌, ◌==◌, inr, refl, drop, none, if-keep, inl, if◌then◌else◌,
  Option-cases, suc, [], ap, false, arith, ◌∷◌, ◌+◌, some, ◌<◌, ◌≤◌, true, length, ◌≡◌, Bool, ℕ,
  List, scan, span, span_parts, length-drop, length-take, length-append, >>=_some,
}

scan_shorter :
    (acc : ℕ) (p : List ℕ) (seen : Bool) (out : ℕ × Bool × List ℕ)
    → scan chunk_fits hex_digit 16 acc seen p ≡ some out
    → (length out.2 ≤ length p) × (seen ≡ false → out.1 ≡ true → length out.2 < length p)
unfolding scan
scan_shorter acc [] seen out e = ground arith
scan_shorter acc (c ∷ cs) seen out e = elim (Option-cases (hex_digit c)) [
  | inl h ↦ ground arith
  | inr (d, h) ↦
      let rest : scan chunk_fits hex_digit 16 (acc * 16 + d) true cs ≡ some out
          → length out.2 ≤ length cs =
        λ g. (scan_shorter (acc * 16 + d) cs true out g).0 in
      ground (arith, rest)
]

skip_shorter : (p : List ℕ) → length (skip_extension p) ≤ length p
unfolding skip_extension
skip_shorter [] = omega arith
skip_shorter (c ∷ cs) =
    if-keep (λ (t : List ℕ). length t ≤ length (c ∷ cs)) (c == b';')
      (λ e. suffix (λ d. not (d == b'\r' || d == b'\n')) (c ∷ cs)) (λ e. omega arith)
  where
    suffix : (p : ℕ → Bool) (xs : List ℕ) → length (span p xs).1 ≤ length xs
    suffix p xs =
        omega (arith, length-append (span p xs).0 (span p xs).1, ap length (span_parts p xs))

pub crlf_shorter :
    (p : List ℕ) {rest : List ℕ} → after_crlf p ≡ some rest → length rest + 2 ≡ length p
unfolding after_crlf
crlf_shorter [] e = absurd (cc)
crlf_shorter (c ∷ []) e = absurd (cc)
crlf_shorter (c ∷ d ∷ cs) e = ground arith

pub size_line_shorter :
    (p : List ℕ) {size : ℕ} {rest : List ℕ}
    → size_line p ≡ some (size, rest)
    → length rest + 3 ≤ length p
unfolding size_line
size_line_shorter p e =
    let (out, e0, h) = >>=_some (scan chunk_fits hex_digit 16 0 false p) e in
    let (less, strict) = scan_shorter 0 p false out e0 in
    let (chunk, e1, h1) = >>=_some (if out.1 then after_crlf (skip_extension out.2) else none) h in
    let s = skip_shorter out.2 in
    let c : after_crlf (skip_extension out.2) ≡ some chunk
        → length chunk + 2 ≡ length (skip_extension out.2) =
      crlf_shorter (skip_extension out.2) in
    ground (arith, c, strict refl)

trailers_longer : (fresh : Bool) (p : List ℕ) → trailers_end fresh p ≡ true → 2 ≤ length p
unfolding trailers_end
trailers_longer fresh [] h = absurd (cc)
trailers_longer fresh (c ∷ []) h = absurd (cc)
trailers_longer fresh (c ∷ d ∷ cs) h = omega arith

-- The decoded bytes, from a body of which `len` bytes are decoded.
decoded_fits :
    (f body_len len : ℕ) (p : List ℕ) {out : List ℕ}
    → dechunk f body_len len p ≡ some out
    → length out + 5 ≤ length p
unfolding dechunk
decoded_fits zero body_len len p h = absurd (cc)
decoded_fits (suc f) body_len len p {out} h =
    let ((size, rest), e, k) = >>=_some (size_line p) h in
    let s = size_line_shorter p e in
    elim (Option-cases (after_crlf (drop size rest))) [
      | inl e1 ↦ ground (arith, trailers_longer true rest)
      | inr (after, e1) ↦ elim (Option-cases (dechunk f body_len (len + size) after)) [
        | inl e2 ↦ ground (arith, trailers_longer true rest)
        | inr (tail, e2) ↦
            let t = decoded_fits f body_len (len + size) after e2 in
            let c = crlf_shorter (drop size rest) e1 in
            ground (
              arith,
              trailers_longer true rest,
              length-append (take size rest) tail,
              length-take size rest,
              length-drop size rest,
            )
      ]
    ]

-- A decoded body is at least five bytes shorter than the raw one, so that it and its final zero fit
-- the array of the raw body's size.
pub length-dechunk_body :
    (body : List ℕ) {out : List ℕ}
    → dechunk_body true body ≡ some out
    → length out + 5 ≤ length body
unfolding dechunk_body
length-dechunk_body body h = decoded_fits (length body + 1) (length body) 0 body h
