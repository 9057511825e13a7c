-- ===== src/HttpClient/Request.antt =====
-- `http_request`: the text of a request, and the order in which a request is checked, sent and answered.
pub mod Exchange
mod Tests
use mybot.HttpClient.Stream.{
  SendRound, SendResult, ReadRound, sent_all, failed, underflow, send_all, read_all,
}
use mybot.HttpClient.Headers.{extra_headers_are_safe, header_value_is_safe}
use mybot.HttpClient.Response.{Response, parse_response}
use mybot.Url.{Parts, parse}
use mybot.Common.{
  true, ◌||◌, none, ◌==◌, not, length, some, [], ◌&&◌, ◌++◌, ◌∷◌, Option, ltb, if◌then◌else◌, List,
  Text, Bool, ◌>>=◌, decimal, codes,
}

unfoldable pub include_port : Parts → Bool
include_port parts =
    (parts.use_tls && not (parts.port == 443)) || (not parts.use_tls && not (parts.port == 80))

unfoldable pub host_header : Parts → Text
host_header parts =
    if include_port parts then parts.host ++ (b':' ∷ decimal parts.port) else parts.host

abbrev pub crlf : Text
crlf = b'\r' ∷ b'\n' ∷ []

-- The strings that the caller passes; a null pointer is `none`. `post` is `strcmp(method, "POST") == 0`.
pub record Call : Type 0 where
  pub post : Bool
  pub url : Text
  pub content_type : Option Text
  pub req_body : Option Text
  pub extra_headers : Option Text

unfoldable pub text_or : Text → Option Text → Text
text_or default none = default
text_or default (some t) = t

unfoldable pub get_text : Call → Parts → Text
get_text call parts =
    codes "GET "
    ++ (parts.path
        ++ (codes " HTTP/1.1"
            ++ (crlf
                ++ (codes "Host: "
                    ++ (host_header parts
                        ++ (crlf
                            ++ (codes "Connection: close"
                                ++ (crlf ++ (text_or [] call.extra_headers ++ crlf)))))))))

unfoldable pub post_text : Call → Text → Parts → Text
post_text call body parts =
    codes "POST "
    ++ (parts.path
        ++ (codes " HTTP/1.1"
            ++ (crlf
                ++ (codes "Host: "
                    ++ (host_header parts
                        ++ (crlf
                            ++ (codes "Content-Type: "
                                ++ (text_or (codes "application/octet-stream") call.content_type
                                    ++ (crlf
                                        ++ (codes "Content-Length: "
                                            ++ (decimal (length body)
                                                ++ (crlf
                                                    ++ (codes "Connection: close"
                                                        ++ (crlf
                                                            ++ (text_or [] call.extra_headers
                                                            ++ (crlf ++ body))))))))))))))))

unfoldable pub request_text : Call → Parts → Text
request_text call parts = elim call.req_body [
  | none ↦ get_text call parts
  | some body ↦ if call.post then post_text call body parts else get_text call parts
]

-- What the stream, the allocator and the peer do.
pub record Surroundings : Type 0 where
  pub connected : Bool
  pub req_allocated : Bool
  pub sends : List SendRound
  pub buf_allocated : Bool
  pub reads : List ReadRound
  pub body_allocated : Bool

unfoldable pub headers_are_safe : Call → Bool
headers_are_safe call =
    elim call.content_type [ none ↦ true | some t ↦ header_value_is_safe (some t) true ]
    && extra_headers_are_safe call.extra_headers

unfoldable pub fits_buffers : Call → Parts → Bool
fits_buffers call parts =
    ltb (length (host_header parts)) 136 && ltb (length (request_text call parts)) 2048

-- `https` and `insecure` are the build options of the URL parser.
unfoldable pub http_request : Bool → Bool → Call → Surroundings → Option Response
http_request https insecure call around = do
  parts ← parse https insecure call.url
  if not (headers_are_safe call)
        || not around.connected
        || not around.req_allocated
        || not (fits_buffers call parts)
      then none
      else elim (send_all parts.use_tls around.sends (request_text call parts)).0 [
        | failed ↦ none
        | underflow ↦ none
        | sent_all ↦ (do
          (raw, closed) ← read_all around.buf_allocated parts.use_tls around.reads
          parse_response around.body_allocated raw closed)
      ]
