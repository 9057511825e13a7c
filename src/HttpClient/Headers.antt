-- ===== src/HttpClient/Headers.antt =====
-- The checks of request headers: `extra_headers_are_safe` and `mybot_http_header_value_is_safe`.
pub mod Bytes
pub mod Injection
use mybot.Common.{
  ◌+◌, drop, is_empty, zero, [], ◌||◌, length, ◌==◌, suc, ltb, some, ◌&&◌, if◌then◌else◌, leb, ◌∷◌,
  false, not, true, none, Bool, Text, ℕ, Option, ◌>>=◌, span, all, is_digit,
}

unfoldable pub header_name_char : ℕ → Bool
header_name_char c =
    (leb b'a' c && leb c b'z')
    || (leb b'A' c && leb c b'Z')
    || is_digit c
    || c == b'!'
    || c == b'#'
    || c == b'$'
    || c == b'%'
    || c == b'&'
    || c == b'*'
    || c == b'+'
    || c == b'-'
    || c == b'.'
    || c == b'^'
    || c == b'_'
    || c == b'|'
    || c == b'~'

unfoldable pub header_value_char : ℕ → Bool
header_value_char c = not ((ltb c 32 && not (c == b'\t')) || ltb 126 c)

-- `strstr(line, "\r\n")`: the line and what follows its end.
unfoldable pub split_line : Text → Option (Text × Text)
split_line [] = none
split_line (c ∷ []) = none
split_line (c ∷ d ∷ cs) =
    let later = split_line (d ∷ cs) in
    if c == b'\r' && d == b'\n'
    then some ([], cs)
    else later >>= λ (line, rest). some (c ∷ line, rest)

unfoldable pub header_line_is_safe : Text → Bool
header_line_is_safe line =
    let (name, tail) = span (λ c. not (c == b':')) line in
    not (is_empty tail)
    && not (is_empty name)
    && all header_name_char name
    && all header_value_char (drop 1 tail)

unfoldable pub lines_are_safe : ℕ → Text → Bool
lines_are_safe zero line = false
lines_are_safe (suc fuel) [] = true
lines_are_safe (suc fuel) (c ∷ cs) = elim (split_line (c ∷ cs)) [
  | none ↦ false
  | some (line, rest) ↦ header_line_is_safe line && lines_are_safe fuel rest
]

-- Every round takes at least the two bytes that end a line. A null pointer is `none`.
unfoldable pub extra_headers_are_safe : Option Text → Bool
extra_headers_are_safe none = true
extra_headers_are_safe (some headers) = lines_are_safe (length headers + 1) headers

unfoldable pub header_value_is_safe : Option Text → Bool → Bool
header_value_is_safe none allow_tab = false
header_value_is_safe (some value) allow_tab =
    not (is_empty value)
    && all (λ c. not ((ltb c 32 && not (allow_tab && c == b'\t')) || ltb 126 c)) value
