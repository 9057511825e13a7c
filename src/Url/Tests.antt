-- ===== src/Url/Tests.antt =====
-- Runs of the URL parser at concrete inputs.
use mybot.Url.Safe.{Safe, parse-Safe}
use mybot.Url.Print.{print, parse-print}
use mybot.Url.{
  Parts, parse, scheme, parse_host, parse_port, parse_path, host_byte, host_end, target_byte,
  host_is_safe, request_target_is_safe, port_fits,
}
use mybot.Common.{Text, refl, strip, scan, decimal_digit, codes, none, some, ◌≡◌, true, false}

abbrev service : Parts
service = record {
  use_tls = true;
  host = codes "api.example.com";
  port = 8443;
  path = codes "/v1/pair?x=1";
}

abbrev service_url : Text
service_url = codes "https://api.example.com:8443/v1/pair?x=1"

parse-service_url : parse true false service_url ≡ some service
unfolding parse scheme parse_host parse_port parse_path host_byte host_end target_byte host_is_safe
    request_target_is_safe port_fits strip scan decimal_digit
parse-service_url = refl

parse-Safe_example : Safe true false service
parse-Safe_example = parse-Safe true false service_url parse-service_url

parse-print_example : parse true false (print service) ≡ some service
parse-print_example = parse-print service parse-Safe_example

-- A port above 65535, and plain HTTP in a build that does not allow it.
refused_test :
    (parse true false (codes "https://a:65536/") ≡ none)
    × (parse true false (codes "http://a/") ≡ none)
unfolding parse scheme parse_host parse_port parse_path host_byte host_end target_byte host_is_safe
    request_target_is_safe port_fits strip scan decimal_digit
refused_test = (refl, refl)
