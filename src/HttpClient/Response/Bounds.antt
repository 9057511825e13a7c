-- ===== src/HttpClient/Response/Bounds.antt =====
-- What the response parser returns is a status of three digits and bytes of the input.
use mybot.HttpClient.Chunked.Bounds.{length-dechunk_body}
use mybot.HttpClient.Response.{
  Response, Framing, parse_response, parse_status_line, parse_headers, frame_body, until_lf,
  skip_cr, content_length_field, transfer_encoding_field,
}
use mybot.Common.{
  ◌==◌, ltb, if◌then◌else◌, zero, [], inr, length-append, false, inl, Option-cases, none, ap, ◌∷◌,
  Bool-cases, arith, suc, ◌+◌, ◌++◌, ◌<◌, ◌≤◌, some, true, length, ◌≡◌, Text, ℕ, Bool, >>=_some,
  length-take,
}

pub until_lf_parts :
    (p : Text) {line rest : Text} → until_lf p ≡ some (line, rest) → p ≡ line ++ (b'\n' ∷ rest)
unfolding until_lf
until_lf_parts [] e = absurd (cc)
until_lf_parts (c ∷ cs) e = elim (Option-cases (until_lf cs)) [
  | inl n ↦ ground arith
  | inr ((line, rest), s) ↦ let later = until_lf_parts cs s in ground (arith, later)
]

length-until_lf :
    (p : Text) {line rest : Text}
    → until_lf p ≡ some (line, rest)
    → length p ≡ length line + length rest + 1
length-until_lf p {line} {rest} e =
    omega (arith, ap length (until_lf_parts p e), length-append line (b'\n' ∷ rest))

until_lf_shorter :
    (p : Text) {line rest : Text} → until_lf p ≡ some (line, rest) → length rest < length p
until_lf_shorter p {line} {rest} e =
    omega (arith, ap length (until_lf_parts p e), length-append line (b'\n' ∷ rest))

skip_cr_shorter : (p : Text) → length (skip_cr p) ≤ length p
unfolding skip_cr
skip_cr_shorter [] = omega arith
skip_cr_shorter (c ∷ cs) = ground arith

headers_shorter :
    (fuel : ℕ) (f : Framing) (p : Text) {g : Framing} {after : Text}
    → parse_headers fuel f p ≡ some (g, after)
    → length after < length p
unfolding parse_headers
headers_shorter zero f p e = absurd (cc)
headers_shorter (suc fuel) f p {g} {after} e =
    let ((line, rest), e0, h) = >>=_some (until_lf p) e in
    let s = until_lf_shorter p e0 in
    let r = skip_cr_shorter rest in
    elim (Option-cases (content_length_field f line)) [
      | inl e1 ↦ ground arith
      | inr (k, e1) ↦
          let later =
            headers_shorter fuel (transfer_encoding_field k line) (skip_cr rest) {g = g}
              {after = after} in
          ground (arith, later)
    ]

status_line_range : (line : Text) {n : ℕ} → parse_status_line line ≡ some n → n < 1000
unfolding parse_status_line
status_line_range line h = ground arith

frame_bound :
    (closed : Bool) (f : Framing) (rest : Text) {body : Text}
    → frame_body true closed f rest ≡ some body
    → length body ≤ length rest
unfolding frame_body
frame_bound closed f rest {body} h = elim (Bool-cases f.chunked) [
  | inl e ↦ let d = length-dechunk_body rest {out = body} in ground (arith, d)
  | inr e ↦ elim (Option-cases f.content_length) [
    | inl e1 ↦ ground arith
    | inr (n, e1) ↦ ground (arith, length-take n rest)
  ]
]

-- A parsed response has a status from 1 to 999 and a body shorter than the bytes received.
pub parse_response_bounds :
    (raw : Text) (closed : Bool) {resp : Response}
    → parse_response true raw closed ≡ some resp
    → (0 < resp.status_code) × (resp.status_code < 1000) × (length resp.body + 13 < length raw)
unfolding parse_response
parse_response_bounds raw closed {resp} h =
    let ((line, rest), e0, h0) = >>=_some (until_lf raw) h in
    let (status, e1, h1) =
      >>=_some (if ltb (length line) 13 then none else parse_status_line raw) h0 in
    let ((f, after), e2, h2) = >>=_some (parse_headers (length rest + 1) start rest) h1 in
    let (body, e3, h3) =
      >>=_some (if status == 0 then none else frame_body true closed f after) h2 in
    let range : parse_status_line raw ≡ some status → status < 1000 = status_line_range raw in
    let shorter = headers_shorter (length rest + 1) start rest e2 in
    let fits : frame_body true closed f after ≡ some body → length body ≤ length after =
      frame_bound closed f after in
    let whole = length-until_lf raw e0 in ground (arith, range, fits)
  where
    start : Framing
    start = record { content_length = none; chunked = false }
