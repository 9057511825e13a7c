-- ===== src/HttpClient/Request/Exchange.antt =====
-- What a successful request implies.
use mybot.HttpClient.Request.{
  Call, Surroundings, request_text, http_request, headers_are_safe, fits_buffers,
}
use mybot.HttpClient.Stream.{send_all, sent_all}
use mybot.HttpClient.Stream.Order.{send_all_lem}
use mybot.HttpClient.Headers.{extra_headers_are_safe}
use mybot.HttpClient.Response.{Response}
use mybot.Url.{Parts, parse}
use mybot.Url.Safe.{Safe, parse-Safe}
use mybot.Common.{◌<◌, length, arith, some, true, Bool, ◌≡◌, >>=_some}

fits_lem :
    (call : Call) (parts : Parts)
    → fits_buffers call parts ≡ true
    → length (request_text call parts) < 2048
unfolding fits_buffers
fits_lem call parts h = ground arith

headers_lem :
    (call : Call) → headers_are_safe call ≡ true → extra_headers_are_safe call.extra_headers ≡ true
unfolding headers_are_safe
headers_lem call h = ground arith

-- A request is answered only if its URL is accepted with safe parts, its extra headers pass their check,
-- and the peer took its whole text, shorter than 2048 bytes, in order and once.
pub http_request_sent :
    (https insecure : Bool) (call : Call) (around : Surroundings) {resp : Response}
    → http_request https insecure call around ≡ some resp
    → ((parts : Parts) × (Safe https insecure parts)
        × (parse https insecure call.url ≡ some parts)
        × (length (request_text call parts) < 2048)
        × ((send_all parts.use_tls around.sends (request_text call parts)).1
            ≡ request_text call parts))
      × (extra_headers_are_safe call.extra_headers ≡ true)
unfolding http_request
http_request_sent https insecure call around {resp} h =
    let (parts, e, k) = >>=_some (parse https insecure call.url) h in
    let size : fits_buffers call parts ≡ true → length (request_text call parts) < 2048 =
      fits_lem call parts in
    let whole : (send_all parts.use_tls around.sends (request_text call parts)).0 ≡ sent_all
        → (send_all parts.use_tls around.sends (request_text call parts)).1
          ≡ request_text call parts =
      (send_all_lem parts.use_tls around.sends (request_text call parts)).1 in
    let headers : headers_are_safe call ≡ true → extra_headers_are_safe call.extra_headers ≡ true =
      headers_lem call in
    (
      (parts, parse-Safe https insecure call.url e, e, ground (arith, size), ground (arith, whole)),
      ground (arith, headers),
    )
