-- ===== src/DeviceClient/Tests.antt =====
-- Runs of the device client's encoders at concrete inputs.
use mybot.DeviceClient.{
  url_unreserved, upper_hex, escape, encode_from, encode_path_segment, build_authorization_header,
}
use mybot.DeviceClient.Escape.{encode_path_segment_lem, decode, segment_byte}
use mybot.DeviceClient.Credential.{authorization_header_accepted, field}
use mybot.HttpClient.Headers.Injection.{WellFormed, render}
use mybot.HttpClient.Headers.Bytes.{ValueByte}
use mybot.HttpClient.Headers.{extra_headers_are_safe, header_value_is_safe}
use mybot.Common.{All, arith, [], ◌<◌, ◌∷◌, refl, length, ◌++◌, Text, ◌≡◌, codes, some, all, true}

abbrev device : Text
device = codes "a/b 1"

encoded : encode_path_segment device 192 ≡ some (codes "a%2Fb%201")
unfolding url_unreserved upper_hex escape encode_from encode_path_segment
encoded = refl

encode_path_segment_lem_example :
    (decode (codes "a%2Fb%201") ≡ device)
    × (all segment_byte (codes "a%2Fb%201") ≡ true)
    × (length (codes "a%2Fb%201") < 192)
encode_path_segment_lem_example = encode_path_segment_lem device 192 bytes encoded
  where
    bytes : All (λ c. c < 256) device
    bytes = ground arith

abbrev header : Text
header = codes "Authorization: Device t0" ++ (b'\r' ∷ b'\n' ∷ [])

built : build_authorization_header (codes "Device ") (some (codes "t0")) 64 ≡ some header
unfolding build_authorization_header header_value_is_safe
built = refl

scheme_bytes : All ValueByte (codes "Device ")
unfolding ValueByte
scheme_bytes = ground arith

authorization_header_accepted_example :
    (extra_headers_are_safe (some header) ≡ true)
    × ((token : Text) × (some (codes "t0") ≡ some token)
        × WellFormed (field (codes "Device ") token)
        × (header ≡ render (field (codes "Device ") token ∷ [])))
    × (length header < 64)
authorization_header_accepted_example =
    authorization_header_accepted (codes "Device ") (some (codes "t0")) 64 scheme_bytes built
