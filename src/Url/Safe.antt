-- ===== src/Url/Safe.antt =====
-- What mybot_url.c accepts is within its bounds and cannot break out of a request line.
use mybot.Common.{
  inr, inl, Option-cases, ◌+◌, ◌*◌, if◌then◌else◌, ℕ, Text, Bool, subst, ap, all-All, [], >>=_some,
  false, ◌≢◌, ◌∷◌, All, none, length, arith, true, some, ◌≤◌, ◌≡◌, ◌<◌,
}
use mybot.Url.{
  Parts, parse, scheme, parse_host, parse_port, parse_path, host_byte, target_byte, host_is_safe,
  host_end, request_target_is_safe, port_fits,
}
use mybot.Common.{span, span-all, all, not, sym, scan, decimal_digit, ◌-◌}

abbrev pub HostByte : ℕ → Type 0
HostByte c =
    (32 < c)
    × (c ≤ 126)
    × (c ≢ b'/')
    × (c ≢ b':')
    × (c ≢ b'\\')
    × (c ≢ b'?')
    × (c ≢ b'#')
    × (c ≢ b'@')

abbrev pub TargetByte : ℕ → Type 0
TargetByte c = (32 < c) × (c ≤ 126) × (c ≢ b'#') × (c ≢ b'\\')

pub record Safe (https insecure : Bool) (parts : Parts) : Type 0 where
  pub allowed : (if parts.use_tls then https else insecure) ≡ true
  pub host_size : (0 < length parts.host) × (length parts.host < 128)
  pub host_bytes : All HostByte parts.host
  pub port_range : (0 < parts.port) × (parts.port ≤ 65535)
  pub path_size : length parts.path < 512
  pub path_start : (rest : Text) × (parts.path ≡ b'/' ∷ rest)
  pub path_bytes : All TargetByte parts.path

scheme_allowed :
    (https insecure : Bool) (url : Text) {tls : Bool} {port : ℕ} {rest : Text}
    → scheme https insecure url ≡ some (tls, port, rest)
    → ((if tls then https else insecure) ≡ true) × (0 < port) × (port ≤ 65535)
unfolding scheme
scheme_allowed https insecure url h = ground arith

parse_host_lem :
    (p : Text) {host rest : Text}
    → parse_host p ≡ some (host, rest)
    → (0 < length host)
      × (length host < 128)
      × (host_is_safe host ≡ true)
      × (host ≡ (span (λ c. not (host_end c)) p).0)
unfolding parse_host
parse_host_lem p h = ground arith

-- The host stops at the first byte that ends it.
no_end_byte : (p : Text) → all (λ c. not (host_end c)) (span (λ c. not (host_end c)) p).0 ≡ true
no_end_byte p = span-all (λ c. not (host_end c)) p

host_bytes_lem :
    (host : Text)
    → all host_byte host ≡ true
    → all (λ c. not (host_end c)) host ≡ true
    → All HostByte host
unfolding host_byte host_end
host_bytes_lem [] h k = tt
host_bytes_lem (c ∷ cs) h k = (ground arith, host_bytes_lem cs (ground arith) (ground arith))

host_is_safe_lem :
    (host : Text)
    → host_is_safe host ≡ true
    → all (λ c. not (host_end c)) host ≡ true
    → All HostByte host
unfolding host_is_safe
host_is_safe_lem host h k = host_bytes_lem host (ground arith) k

scan_bound :
    (acc : ℕ) (seen : Bool) (p : Text) (out : ℕ × Bool × Text)
    → acc ≤ 65535
    → scan port_fits decimal_digit 10 acc seen p ≡ some out
    → out.0 ≤ 65535
unfolding scan port_fits decimal_digit
scan_bound acc seen [] out h e = ground arith
scan_bound acc seen (c ∷ cs) out h e =
    let rest : acc * 10 + (c - b'0') ≤ 65535
        → scan port_fits decimal_digit 10 (acc * 10 + (c - b'0')) true cs ≡ some out
        → out.0 ≤ 65535 =
      scan_bound (acc * 10 + (c - b'0')) true cs out in
    ground (arith, rest)

parse_port_lem :
    (standard : ℕ) (p : Text) {n : ℕ} {rest : Text}
    → 0 < standard
    → standard ≤ 65535
    → parse_port standard p ≡ some (n, rest)
    → (0 < n) × (n ≤ 65535)
unfolding parse_port
parse_port_lem standard [] low high h = ground arith
parse_port_lem standard (c ∷ cs) low high h =
    elim (Option-cases (scan port_fits decimal_digit 10 0 false cs)) [
      | inl e ↦ ground arith
      | inr (out, e) ↦ let bound = scan_bound 0 false cs out (omega arith) e in ground arith
    ]

parse_path_lem : (p : Text) {path : Text} → parse_path p ≡ some path → length path < 512
unfolding parse_path
parse_path_lem [] h = ground arith
parse_path_lem (c ∷ cs) h = ground arith

request_target_lem :
    (path : Text)
    → request_target_is_safe path ≡ true
    → ((rest : Text) × (path ≡ b'/' ∷ rest)) × All TargetByte path
unfolding request_target_is_safe target_byte
request_target_lem [] h = absurd (cc)
request_target_lem (c ∷ cs) h = (
  (cs, ap (λ d. d ∷ cs) (ground arith)),
  all-All target_byte (c ∷ cs) (λ d e. ground arith) (ground arith),
)

-- An accepted URL uses a scheme that the build allows; its host has 1 to 127 bytes, its port is 1 to
-- 65535, its path starts with a slash and is shorter than 512 bytes. No byte of either is a blank, a
-- control, above 126, a backslash or `#`; none of the host is a slash, a colon, `?` or `@`.
pub parse-Safe :
    (https insecure : Bool) (url : Text) {parts : Parts}
    → parse https insecure url ≡ some parts
    → Safe https insecure parts
unfolding parse
parse-Safe https insecure url {parts} h =
    let ((tls, standard, p), e0, h0) = >>=_some (scheme https insecure url) h in
    let ((host, after_host), e1, h1) = >>=_some (parse_host p) h0 in
    let ((port, after_port), e2, h2) = >>=_some (parse_port standard after_host) h1 in
    let (path, e3, h3) = >>=_some (parse_path after_port) h2 in
    let (allowed, low, high) = scheme_allowed https insecure url e0 in
    let (some_host, host_fits, safe, taken) = parse_host_lem p e1 in
    let no_end = subst (λ t. all (λ c. not (host_end c)) t ≡ true) (sym taken) (no_end_byte p) in
    let range = parse_port_lem standard after_host low high e2 in
    let (b, same) = result path h3 in
    let (start, bytes) = request_target_lem path b in
    subst (Safe https insecure) same (record {
      allowed = allowed;
      host_size = (some_host, host_fits);
      host_bytes = host_is_safe_lem host safe no_end;
      port_range = range;
      path_size = parse_path_lem after_port e3;
      path_start = start;
      path_bytes = bytes;
    })
  where
    result :
        {tls : Bool} {host : Text} {port : ℕ} (path : Text)
        → (if request_target_is_safe path
            then some (record { use_tls = tls; host = host; port = port; path = path })
            else none)
          ≡ some parts
        → (request_target_is_safe path ≡ true)
          × ((record { use_tls = tls; host = host; port = port; path = path }) ≡ parts)
    result path e = ground arith
