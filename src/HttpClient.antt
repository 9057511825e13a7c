-- ===== src/HttpClient.antt =====
-- src/support/mybot_http_client.c and mybot_http_header.c: an HTTP client over a byte stream.
-- A failure is `none`.
pub mod Headers
pub mod Chunked
pub mod Response
pub mod Complete
pub mod Stream
pub mod Request
mod Tests
