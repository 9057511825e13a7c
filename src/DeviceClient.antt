-- ===== src/DeviceClient.antt =====
-- src/service/mybot_device_client.c: the URLs and the credential header of device-service requests.
-- -1 is `none`.
pub mod Escape
pub mod Credential
mod Tests
use mybot.HttpClient.Headers.{header_value_is_safe}
use mybot.Common.{
  ◌++◌, ◌*◌, ◌%◌, none, false, ◌-◌, length, ◌==◌, ◌/◌, ◌&&◌, ◌+◌, ◌||◌, not, [], ltb, some, ◌∷◌,
  leb, is_empty, Bool, if◌then◌else◌, Option, Text, ℕ, ◌>>=◌, codes, is_digit,
}

unfoldable pub url_unreserved : ℕ → Bool
url_unreserved c =
    (leb b'a' c && leb c b'z')
    || (leb b'A' c && leb c b'Z')
    || is_digit c
    || c == b'-'
    || c == b'.'
    || c == b'_'
    || c == b'~'

unfoldable pub upper_hex : ℕ → ℕ
upper_hex d = if ltb d 10 then b'0' + d else b'A' + (d - 10)

unfoldable pub escape : ℕ → Text
escape c = if url_unreserved c then c ∷ [] else b'%' ∷ upper_hex (c / 16) ∷ upper_hex (c % 16) ∷ []

-- The loop, with `offset` bytes written into an array of `encoded_size`.
unfoldable pub encode_from : ℕ → ℕ → Text → Option Text
encode_from encoded_size offset [] = some []
encode_from encoded_size offset (c ∷ cs) =
    let needed = if url_unreserved c then 1 else 3 in
    let rest = encode_from encoded_size (offset + needed) cs in
    if leb (encoded_size - offset) needed then none else rest >>= λ t. some (escape c ++ t)

unfoldable pub encode_path_segment : Text → ℕ → Option Text
encode_path_segment value encoded_size =
    if is_empty value || encoded_size == 0 then none else encode_from encoded_size 0 value

-- `max_id` is MYBOT_DEVICE_CLIENT_MAX_ID.
unfoldable pub build_device_url : ℕ → Text → Text → Text → ℕ → Option Text
build_device_url max_id base_url device_id suffix url_size =
    if is_empty device_id || leb max_id (length device_id)
    then none
    else encode_path_segment device_id (max_id * 3) >>= λ encoded_id.
        let url = base_url ++ (codes "/devices/" ++ (encoded_id ++ suffix)) in
        if ltb (length url) url_size then some url else none

unfoldable pub build_authorization_header : Text → Option Text → ℕ → Option Text
build_authorization_header scheme none header_size = none
build_authorization_header scheme (some credential) header_size =
    if not (header_value_is_safe (some credential) false)
    then none
    else let header = codes "Authorization: " ++ (scheme ++ (credential ++ (b'\r' ∷ b'\n' ∷ []))) in
      if ltb (length header) header_size then some header else none
