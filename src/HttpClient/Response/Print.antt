-- ===== src/HttpClient/Response/Print.antt =====
-- Parsing a response printed with a Content-Length field gives back its status and its body.
use mybot.HttpClient.Response.{
  parse_response, frame_body, parse_status_line, Framing, parse_headers, until_lf, skip_cr,
  content_length_field, transfer_encoding_field, parse_content_length, blank, length_fits,
  ascii_case_equal, fold_case, ends_headers,
}
use mybot.Common.{
  take-append, strip, Bool, ltb, append_assoc, all-append, length, not_lt→ltb, lt→ltb, ◌%◌, zero,
  dec_lt, length-append, ◌/◌, arith, ◌+◌, [], true, refl, some, ◌==◌, ◌≤◌, not, suc, ◌++◌, false,
  ◌<◌, ◌∷◌, ◌≡◌, is_empty, none, ℕ, Text, decimal, numeral, scan, scan-numeral, decimal_digit,
  is_digit, codes, size_max, all, span,
}

-- The field before the body is `Content-Length`, followed by an empty line.
unfoldable pub render : ℕ → Text → Text → Text → Text
render status reason body extra =
    codes "HTTP/1.1 "
    ++ ((b'0' + status / 100)
        ∷ (b'0' + status / 10 % 10)
        ∷ (b'0' + status % 10)
        ∷ b' '
        ∷ (reason
            ++ (b'\r'
                ∷ b'\n'
                ∷ (codes "Content-Length: "
                    ++ (decimal (length body)
                        ++ (b'\r' ∷ b'\n' ∷ b'\r' ∷ b'\n' ∷ (body ++ extra)))))))

until_lf-append :
    (line rest : Text)
    → all (λ c. not (c == b'\n')) line ≡ true
    → until_lf (line ++ (b'\n' ∷ rest)) ≡ some (line, rest)
unfolding until_lf
until_lf-append [] rest h = refl
until_lf-append (c ∷ cs) rest h = ground (arith, until_lf-append cs rest)

numeral_head :
    (fuel n : ℕ)
    → n < fuel
    → (d : ℕ) × (t : Text) × (d < 10) × (numeral 10 (λ d. b'0' + d) fuel n ≡ (b'0' + d) ∷ t)
unfolding numeral
numeral_head zero n h = absurd (omega arith)
numeral_head (suc fuel) n h = elim (dec_lt n 10) [
  | yes p ↦ (n, [], p, rw (numeral, lt→ltb n 10 p) refl)
  | no p ↦
      let (d, t, q, e) = numeral_head fuel (n / 10) (omega arith) in
      (d, t ++ ((b'0' + n % 10) ∷ []), q, rw (numeral, not_lt→ltb n 10 (omega arith), e) refl)
]

numeral_digits : (fuel n : ℕ) → n < fuel → all is_digit (numeral 10 (λ d. b'0' + d) fuel n) ≡ true
unfolding numeral
numeral_digits zero n h = absurd (omega arith)
numeral_digits (suc fuel) n h = elim (dec_lt n 10) [
  | yes p ↦ rw (numeral, lt→ltb n 10 p) (ground arith)
  | no p ↦
      let k = numeral_digits fuel (n / 10) (omega arith) in
      rw (numeral, not_lt→ltb n 10 (omega arith))
        (all-append is_digit (numeral 10 (λ d. b'0' + d) fuel (n / 10)) ((b'0' + n % 10) ∷ []) k
          (ground arith))
]

skip_blank :
    (n : ℕ) → (span blank (b' ' ∷ (decimal n ++ (b'\r' ∷ [])))).1 ≡ decimal n ++ (b'\r' ∷ [])
unfolding blank decimal
skip_blank n = let (d, t, q, e) = numeral_head (n + 1) n (omega arith) in rw e (ground arith)

scan_length :
    (n : ℕ)
    → n ≤ size_max
    → scan length_fits decimal_digit 10 0 false (decimal n ++ (b'\r' ∷ []))
      ≡ some (n, true, b'\r' ∷ [])
unfolding decimal length_fits decimal_digit scan
scan_length n h =
    scan-numeral length_fits decimal_digit 10 (λ d. b'0' + d) size_max (λ a d k. ground arith)
      (λ d k. ground arith) (λ n k. omega arith) (λ n. (omega arith, omega arith)) (n + 1) n false
      (b'\r' ∷ []) (omega arith) h

tail_lem : is_empty (skip_cr (span blank (b'\r' ∷ [])).1) ≡ true
unfolding skip_cr blank
tail_lem = refl

content_length-decimal :
    (n : ℕ) → n ≤ size_max → parse_content_length (b' ' ∷ (decimal n ++ (b'\r' ∷ []))) ≡ some n
unfolding parse_content_length
content_length-decimal n h = rw (skip_blank n, scan_length n h, tail_lem) refl

abbrev start : Framing
start = record { content_length = none; chunked = false }

abbrev field_line : ℕ → Text
field_line n = codes "Content-Length: " ++ (decimal n ++ (b'\r' ∷ []))

field_lem :
    (n : ℕ)
    → n ≤ size_max
    → content_length_field start (field_line n)
      ≡ some (record { content_length = some n; chunked = false })
unfolding content_length_field ascii_case_equal fold_case
field_lem n h = ground (arith, content_length-decimal n h, length-append (decimal n) (b'\r' ∷ []))

transfer_lem : (f : Framing) (n : ℕ) → transfer_encoding_field f (field_line n) ≡ f
unfolding transfer_encoding_field ascii_case_equal fold_case
transfer_lem f n = ground arith

no_lf_digits :
    (t : Text) → all is_digit t ≡ true → all (λ c. not (c == b'\n')) (t ++ (b'\r' ∷ [])) ≡ true
no_lf_digits [] h = refl
no_lf_digits (c ∷ cs) h = ground (arith, no_lf_digits cs)

field_no_lf : (n : ℕ) → all (λ c. not (c == b'\n')) (field_line n) ≡ true
unfolding decimal
field_no_lf n = no_lf_digits (decimal n) (numeral_digits (n + 1) n (omega arith))

more : (n : ℕ) → ends_headers (field_line n) ≡ false
unfolding ends_headers
more n = refl

ended :
    (fuel : ℕ) (f : Framing) (rest : Text)
    → parse_headers (suc fuel) f (skip_cr (b'\r' ∷ b'\n' ∷ rest)) ≡ some (f, rest)
unfolding parse_headers until_lf ends_headers skip_cr
ended fuel f rest = refl

-- The bytes after the status line.
headers_lem :
    (fuel n : ℕ) (rest : Text)
    → 2 < fuel
    → n ≤ size_max
    → parse_headers fuel start (field_line n ++ (b'\n' ∷ b'\r' ∷ b'\n' ∷ rest))
      ≡ some (record { content_length = some n; chunked = false }, rest)
unfolding parse_headers
headers_lem zero n rest h k = absurd (omega arith)
headers_lem (suc zero) n rest h k = absurd (omega arith)
headers_lem (suc (suc fuel)) n rest h k =
    rw
      (
        until_lf-append (field_line n) (b'\r' ∷ b'\n' ∷ rest) (field_no_lf n),
        more n,
        field_lem n k,
        transfer_lem (record { content_length = some n; chunked = false }) n,
      )
      (ended fuel (record { content_length = some n; chunked = false }) rest)

abbrev status_line : ℕ → Text → Text
status_line status reason =
    codes "HTTP/1.1 "
    ++ ((b'0' + status / 100)
        ∷ (b'0' + status / 10 % 10)
        ∷ (b'0' + status % 10)
        ∷ b' '
        ∷ (reason ++ (b'\r' ∷ [])))

status_lem :
    (status : ℕ) (reason rest : Text)
    → status < 1000
    → parse_status_line (status_line status reason ++ rest) ≡ some status
unfolding parse_status_line strip
status_lem status reason rest h = ground arith

status_no_lf :
    (status : ℕ) (reason : Text)
    → status < 1000
    → all (λ c. not (c == b'\n')) reason ≡ true
    → all (λ c. not (c == b'\n')) (status_line status reason) ≡ true
status_no_lf status reason h k =
    ground (arith, all-append (λ c. not (c == b'\n')) reason (b'\r' ∷ []) k refl)

status_long : (status : ℕ) (reason : Text) → ltb (length (status_line status reason)) 13 ≡ false
status_long status reason = ground (arith, length-append reason (b'\r' ∷ []))

abbrev rest_of : Text → Text → Text
rest_of body extra = field_line (length body) ++ (b'\n' ∷ b'\r' ∷ b'\n' ∷ (body ++ extra))

render_parts :
    (status : ℕ) (reason body extra : Text)
    → render status reason body extra ≡ status_line status reason ++ (b'\n' ∷ rest_of body extra)
unfolding render
render_parts status reason body extra =
    rw
      (
        append_assoc reason (b'\r' ∷ []) (b'\n' ∷ rest_of body extra),
        append_assoc (decimal (length body)) (b'\r' ∷ []) (b'\n' ∷ b'\r' ∷ b'\n' ∷ (body ++ extra)),
      )
      refl

frame_lem :
    (closed : Bool) (body extra : Text)
    → frame_body true closed
        (record { content_length = some (length body); chunked = false })
        (body ++ extra)
      ≡ some body
unfolding frame_body
frame_lem closed body extra = ground (arith, length-append body extra, take-append body extra)

-- A response with a status from 1 to 999, a reason without line feed, a Content-Length field and a body
-- parses to that status and that body, whatever follows it and whether or not the peer has closed.
pub parse-render :
    (status : ℕ) (reason body extra : Text) (closed : Bool)
    → 0 < status
    → status < 1000
    → all (λ c. not (c == b'\n')) reason ≡ true
    → length body ≤ size_max
    → parse_response true (render status reason body extra) closed
      ≡ some (record { status_code = status; body = body })
unfolding parse_response
parse-render status reason body extra closed low high plain fits =
    let enough : 2 < length (rest_of body extra) + 1 =
      omega (arith, length-append (decimal (length body)) (b'\r' ∷ [])) in
    rw
      (
        render_parts status reason body extra,
        until_lf-append (status_line status reason) (rest_of body extra)
            (status_no_lf status reason high plain),
        status_long status reason,
        status_lem status reason (b'\n' ∷ rest_of body extra) high,
        headers_lem (length (rest_of body extra) + 1) (length body) (body ++ extra) enough fits,
      )
      (ground (arith, frame_lem closed body extra))
