-- ===== src/Url.antt =====
-- src/support/mybot_url.c: the parts of an absolute URL. `https` and `insecure` are the build options
-- MYBOT_ENABLE_HTTPS and MYBOT_ALLOW_INSECURE_HTTP; -1 is `none`.
pub mod Safe
pub mod Print
mod Tests
use mybot.Common.{
  ◌>>=◌, true, none, strip, leb, [], length, some, ◌||◌, ◌&&◌, if◌then◌else◌, ◌∷◌, ltb, not, Option,
  ◌==◌, false, Bool, ℕ, Text, all, is_empty, span, codes, scan, decimal_digit,
}

-- `mybot_url_parts_t`
pub record Parts : Type 0 where
  pub use_tls : Bool
  pub host : Text
  pub port : ℕ
  pub path : Text

unfoldable pub host_byte : ℕ → Bool
host_byte c =
    ltb 32 c && leb c 126 && not (c == b'/' || c == b'\\' || c == b'?' || c == b'#' || c == b'@')

unfoldable pub host_is_safe : Text → Bool
host_is_safe host = not (is_empty host) && all host_byte host

unfoldable pub target_byte : ℕ → Bool
target_byte c = ltb 32 c && leb c 126 && not (c == b'#' || c == b'\\')

unfoldable pub request_target_is_safe : Text → Bool
request_target_is_safe [] = false
request_target_is_safe (c ∷ cs) = c == b'/' && all target_byte (c ∷ cs)

unfoldable pub scheme : Bool → Bool → Text → Option (Bool × ℕ × Text)
scheme https insecure url = elim (if https then strip (codes "https://") url else none) [
  | some p ↦ some (true, 443, p)
  | none ↦ elim (if insecure then strip (codes "http://") url else none) [
    | some p ↦ some (false, 80, p)
    | none ↦ none
  ]
]

unfoldable pub host_end : ℕ → Bool
host_end c = c == b':' || c == b'/'

unfoldable pub port_fits : ℕ → ℕ → Bool
port_fits port digit = not (ltb 6553 port || (port == 6553 && ltb 5 digit))

-- The port after the host, or the scheme's.
unfoldable pub parse_port : ℕ → Text → Option (ℕ × Text)
parse_port standard [] = some (standard, [])
parse_port standard (c ∷ cs) =
    if c == b':'
    then elim (scan port_fits decimal_digit 10 0 false cs) [
      | none ↦ none
      | some (port, seen, rest) ↦
          if not seen then none else if port == 0 then none else some (port, rest)
    ]
    else some (standard, c ∷ cs)

unfoldable pub parse_path : Text → Option Text
parse_path [] = some (b'/' ∷ [])
parse_path (c ∷ cs) =
    if c == b'/' then (if leb 512 (length (c ∷ cs)) then none else some (c ∷ cs)) else none

unfoldable pub parse_host : Text → Option (Text × Text)
parse_host p =
    let (host, rest) = span (λ c. not (host_end c)) p in
    if length host == 0 || leb 128 (length host)
    then none
    else if not (host_is_safe host)
    then none
    else some (host, rest)

-- `mybot_url_parse`
unfoldable pub parse : Bool → Bool → Text → Option Parts
parse https insecure url = do
  (tls, standard, p) ← scheme https insecure url
  (host, after_host) ← parse_host p
  (port, after_port) ← parse_port standard after_host
  path ← parse_path after_port
  if request_target_is_safe path
      then some (record { use_tls = tls; host = host; port = port; path = path })
      else none
