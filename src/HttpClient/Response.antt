-- ===== src/HttpClient/Response.antt =====
-- The response parser: `parse_status_line`, `parse_content_length` and `parse_response`.
pub mod Bounds
pub mod Print
use mybot.HttpClient.Chunked.{dechunk_body}
use mybot.Common.{
  ◌*◌, zero, take, ◌+◌, ◌/◌, ◌-◌, none, ◌&&◌, length, ltb, ◌||◌, suc, is_empty, some, [], Option,
  leb, ◌∷◌, false, true, if◌then◌else◌, not, ◌==◌, ℕ, Bool, Text, ◌>>=◌, span, all, is_digit, scan,
  decimal_digit, size_max, strip, codes, get_or, drop,
}

unfoldable pub fold_case : ℕ → ℕ
fold_case c = if leb b'A' c && leb c b'Z' then c + 32 else c

-- The first `len` bytes, which both strings have.
unfoldable pub ascii_case_equal : Text → Text → ℕ → Bool
ascii_case_equal left right zero = true
ascii_case_equal [] right (suc len) = false
ascii_case_equal (c ∷ cs) [] (suc len) = false
ascii_case_equal (c ∷ cs) (d ∷ ds) (suc len) =
    fold_case c == fold_case d && ascii_case_equal cs ds len

unfoldable pub blank : ℕ → Bool
blank c = c == b' ' || c == b'\t'

unfoldable pub length_fits : ℕ → ℕ → Bool
length_fits length digit = leb length ((size_max - digit) / 10)

unfoldable pub skip_cr : Text → Text
skip_cr [] = []
skip_cr (c ∷ cs) = if c == b'\r' then cs else c ∷ cs

-- The bytes from `value` to `end`.
unfoldable pub parse_content_length : Text → Option ℕ
parse_content_length value = do
  (n, has_digit, rest) ← scan length_fits decimal_digit 10 0 false (span blank value).1
  if has_digit && is_empty (skip_cr (span blank rest).1) then some n else none

unfoldable pub parse_status_line : Text → Option ℕ
parse_status_line line =
    let at : ℕ → ℕ = λ i. get_or line i 0 in
    elim (strip (codes "HTTP/1.") line) [
      | none ↦ none
      | some rest ↦
          if not (at 7 == b'0' || at 7 == b'1') || not (at 8 == b' ')
          then none
          else if not (is_digit (at 9) && is_digit (at 10) && is_digit (at 11))
              || not (at 12 == b' ')
          then none
          else some ((at 9 - b'0') * 100 + (at 10 - b'0') * 10 + (at 11 - b'0'))
    ]

unfoldable pub separator : ℕ → Bool
separator c = c == b' ' || c == b'\t' || c == b','

unfoldable pub token_char : ℕ → Bool
token_char c = not (c == b',' || c == b';' || c == b' ' || c == b'\t' || c == b'\r' || c == b'\n')

-- Whether a token of a Transfer-Encoding value is `chunked`. Every round takes at least one byte.
unfoldable pub names_chunked : ℕ → Text → Bool
names_chunked zero val = false
names_chunked (suc fuel) [] = false
names_chunked (suc fuel) (c ∷ cs) =
    let (token, rest) = span token_char (span separator (c ∷ cs)).1 in
    elim (length token == 7 && ascii_case_equal token (codes "chunked") 7) [
      | true ↦ true
      | false ↦ names_chunked fuel (span (λ d. not (d == b',')) rest).1
    ]

pub record Framing : Type 0 where
  pub content_length : Option ℕ
  pub chunked : Bool

unfoldable pub content_length_field : Framing → Text → Option Framing
content_length_field f line =
    if leb 15 (length line) && ascii_case_equal line (codes "Content-Length:") 15
    then elim (parse_content_length (drop 15 line)) [
      | none ↦ none
      | some n ↦ elim f.content_length [
        | none ↦ some (record f { content_length = some n })
        | some m ↦ if m == n then some (record f { content_length = some n }) else none
      ]
    ]
    else some f

unfoldable pub transfer_encoding_field : Framing → Text → Framing
transfer_encoding_field f line =
    if ltb 18 (length line)
      && ascii_case_equal line (codes "Transfer-Encoding:") 18
      && names_chunked (length line) (drop 18 line)
    then record f { chunked = true }
    else f

-- `memchr(p, '\n', end - p)`: the bytes before the line feed and those after it.
unfoldable pub until_lf : Text → Option (Text × Text)
until_lf [] = none
until_lf (c ∷ cs) =
    let later = until_lf cs in
    if c == b'\n' then some ([], cs) else later >>= λ (line, rest). some (c ∷ line, rest)

unfoldable pub ends_headers : Text → Bool
ends_headers [] = true
ends_headers (c ∷ cs) = is_empty cs && c == b'\r'

-- The framing and the bytes after the empty line. Every round takes at least one byte.
unfoldable pub parse_headers : ℕ → Framing → Text → Option (Framing × Text)
parse_headers zero f p = none
parse_headers (suc fuel) f p = do
  (line, rest) ← until_lf p
  if ends_headers line then some (f, rest) else (do
    f' ← content_length_field f line
    parse_headers fuel (transfer_encoding_field f' line) (skip_cr rest))

-- `mybot_http_client_response_t`; a body of no bytes is a null pointer.
pub record Response : Type 0 where
  pub status_code : ℕ
  pub body : Text

-- The body by its framing: in chunks, by its length, or up to the close.
unfoldable pub frame_body : Bool → Bool → Framing → Text → Option Text
frame_body allocated closed f rest =
    if f.chunked then dechunk_body allocated rest else elim f.content_length [
      | some n ↦
          if ltb (length rest) n
          then none
          else if ltb 0 n && not allocated
          then none
          else some (take n rest)
      | none ↦
          if not closed
          then none
          else if ltb 0 (length rest) && not allocated
          then none
          else some rest
    ]

unfoldable pub parse_response : Bool → Text → Bool → Option Response
parse_response allocated raw closed = do
  (line, rest) ← until_lf raw
  status ← if ltb (length line) 13 then none else parse_status_line raw
  (f, after) ←
      parse_headers (length rest + 1) (record { content_length = none; chunked = false }) rest
  body ← if status == 0 then none else frame_body allocated closed f after
  some (record { status_code = status; body = body })
