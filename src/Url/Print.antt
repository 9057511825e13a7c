-- ===== src/Url/Print.antt =====
-- Parsing a printed URL gives back its parts.
use mybot.Url.Safe.{Safe, HostByte, TargetByte}
use mybot.Url.{
  Parts, parse, scheme, parse_host, parse_port, parse_path, host_byte, host_end, target_byte,
  host_is_safe, request_target_is_safe, port_fits,
}
use mybot.Common.{
  ◌∙◌, get_or, ap, All-all, span-append, ◌+◌, refl, [], ◌++◌, false, arith, some, ◌∷◌, true, codes,
  length, ◌≡◌, if◌then◌else◌, not, All, ◌≤◌, ◌<◌, Text, ℕ, Bool, strip, scan, scan-numeral, decimal,
  decimal_digit, span, all,
}

-- `scheme://host:port/path`
unfoldable pub print : Parts → Text
print parts =
    (if parts.use_tls then codes "https://" else codes "http://")
    ++ (parts.host ++ (b':' ∷ (decimal parts.port ++ parts.path)))

scheme_lem :
    (https insecure tls : Bool) (rest : Text)
    → (if tls then https else insecure) ≡ true
    → (standard : ℕ) × (scheme https insecure
          ((if tls then codes "https://" else codes "http://") ++ rest)
        ≡ some (tls, standard, rest))
unfolding scheme strip
scheme_lem https insecure true rest h = (443, rw h refl)
scheme_lem true insecure false rest h = (80, rw h refl)
scheme_lem false insecure false rest h = (80, rw h refl)

scan_port :
    (port : ℕ) (path : Text)
    → port ≤ 65535
    → (rest : Text) × (path ≡ b'/' ∷ rest)
    → scan port_fits decimal_digit 10 0 false (decimal port ++ path) ≡ some (port, true, path)
unfolding decimal port_fits decimal_digit scan
scan_port port path h (rest, e) =
    scan-numeral port_fits decimal_digit 10 (λ d. b'0' + d) 65535 (λ a d k. ground arith)
      (λ d k. ground arith) (λ n k. omega arith) (λ n. (omega arith, omega arith)) (port + 1) port
      false path (omega arith) h
    ∙ rw e refl

host_byte_lem : (c : ℕ) → HostByte c → host_byte c ≡ true
unfolding host_byte
host_byte_lem c h = ground arith

target_byte_lem : (c : ℕ) → TargetByte c → target_byte c ≡ true
unfolding target_byte
target_byte_lem c h = ground arith

host_stop : (rest : Text) → (span (λ c. not (host_end c)) (b':' ∷ rest)).0 ≡ []
unfolding host_end
host_stop rest = refl

no_end : (h : Text) → All HostByte h → all (λ c. not (host_end c)) h ≡ true
unfolding host_end
no_end [] b = refl
no_end (c ∷ cs) b = ground (arith, no_end cs b.1)

host_checked : (h : Text) → 0 < length h → All HostByte h → host_is_safe h ≡ true
unfolding host_is_safe
host_checked [] k b = absurd (omega arith)
host_checked (c ∷ cs) k b = bytes (c ∷ cs) b
  where
    bytes : (h : Text) → All HostByte h → all host_byte h ≡ true
    bytes h b = All-all host_byte h host_byte_lem b

host_lem :
    (host rest : Text)
    → (0 < length host) × (length host < 128)
    → All HostByte host
    → parse_host (host ++ (b':' ∷ rest)) ≡ some (host, b':' ∷ rest)
unfolding parse_host
host_lem host rest size bytes =
    rw
      (
        span-append (λ c. not (host_end c)) host (b':' ∷ rest) (no_end host bytes) stop,
        host_checked host size.0 bytes,
      )
      (ground arith)
  where
    stop : (span (λ c. not (host_end c)) (b':' ∷ rest)).0 ≡ []
    stop = host_stop rest

target_lem :
    (path : Text)
    → (rest : Text) × (path ≡ b'/' ∷ rest)
    → length path < 512
    → All TargetByte path
    → (parse_path path ≡ some path) × (request_target_is_safe path ≡ true)
unfolding parse_path request_target_is_safe
target_lem [] (rest, e) size bytes = absurd (cc)
target_lem (c ∷ cs) (rest, e) size bytes =
    let first : c ≡ b'/' = ap (λ t. get_or t 0 0) e in
    ground (arith, All-all target_byte (c ∷ cs) target_byte_lem bytes)

-- A URL printed from safe parts parses to those parts.
pub parse-print :
    {https insecure : Bool} (parts : Parts)
    → Safe https insecure parts
    → parse https insecure (print parts) ≡ some parts
unfolding parse print parse_port
parse-print {https} {insecure} parts safe =
    let after = decimal parts.port ++ parts.path in
    let (standard, e) =
      scheme_lem https insecure parts.use_tls (parts.host ++ (b':' ∷ after)) safe.allowed in
    let (p, t) = target_lem parts.path safe.path_start safe.path_size safe.path_bytes in
    rw
      (
        e,
        host_lem parts.host after safe.host_size safe.host_bytes,
        scan_port parts.port parts.path safe.port_range.1 safe.path_start,
      )
      (ground (arith, p, t))
