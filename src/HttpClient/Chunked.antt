-- ===== src/HttpClient/Chunked.antt =====
-- `dechunk_body`: the body of a response with `Transfer-Encoding: chunked`. The rest of the body is a
-- list; `end - p` is its length.
pub mod Bounds
pub mod Encode
use mybot.Common.{
  zero, ◌++◌, take, drop, ltb, ◌>>=◌, ◌||◌, is_empty, [], ◌+◌, ◌&&◌, not, ◌/◌, length, some, ◌==◌,
  suc, none, ◌-◌, true, if◌then◌else◌, false, Option, leb, ◌∷◌, Bool, ℕ, List, scan, size_max,
  is_digit, span,
}

unfoldable pub hex_digit : ℕ → Option ℕ
hex_digit c =
    if is_digit c
    then some (c - b'0')
    else if leb b'a' c && leb c b'f'
    then some (c - b'a' + 10)
    else if leb b'A' c && leb c b'F'
    then some (c - b'A' + 10)
    else none

unfoldable pub chunk_fits : ℕ → ℕ → Bool
chunk_fits size digit = leb size ((size_max - digit) / 16)

unfoldable pub after_crlf : List ℕ → Option (List ℕ)
after_crlf [] = none
after_crlf (c ∷ []) = none
after_crlf (c ∷ d ∷ cs) = if c == b'\r' && d == b'\n' then some cs else none

unfoldable pub skip_extension : List ℕ → List ℕ
skip_extension [] = []
skip_extension (c ∷ cs) =
    if c == b';' then (span (λ d. not (d == b'\r' || d == b'\n')) (c ∷ cs)).1 else c ∷ cs

-- The size line: the size and what follows the line.
unfoldable pub size_line : List ℕ → Option (ℕ × List ℕ)
size_line p = do
  (size, has_digit, rest) ← scan chunk_fits hex_digit 16 0 false p
  chunk ← if has_digit then after_crlf (skip_extension rest) else none
  some (size, chunk)

-- Lines up to an empty one, with nothing after it; the flag says that a line starts here.
unfoldable pub trailers_end : Bool → List ℕ → Bool
trailers_end fresh [] = false
trailers_end fresh (c ∷ []) = false
trailers_end fresh (c ∷ d ∷ cs) =
    let next = trailers_end true cs in
    let inside = trailers_end false (d ∷ cs) in
    if c == b'\r' && d == b'\n' then (if fresh then is_empty cs else next) else inside

-- `len` bytes are decoded already, into an array of `body_len + 1`.
unfoldable pub dechunk : ℕ → ℕ → ℕ → List ℕ → Option (List ℕ)
dechunk zero body_len len p = none
dechunk (suc fuel) body_len len p = do
  (size, rest) ← size_line p
  if size == 0
      then (if trailers_end true rest then some [] else none)
      else if ltb (length rest) size || ltb (body_len + 1 - len - 1) size
      then none
      else (do
        after ← after_crlf (drop size rest)
        out ← dechunk fuel body_len (len + size) after
        some (take size rest ++ out))

-- Every round takes at least one byte of the body.
unfoldable pub dechunk_body : Bool → List ℕ → Option (List ℕ)
dechunk_body allocated body =
    if allocated then dechunk (length body + 1) (length body) 0 body else none
