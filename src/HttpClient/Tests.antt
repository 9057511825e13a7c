-- ===== src/HttpClient/Tests.antt =====
-- Runs of the HTTP client at concrete inputs.
use mybot.HttpClient.Headers.{extra_headers_are_safe}
use mybot.HttpClient.Headers.Injection.{Field, WellFormed, render, extra_headers_iff}
use mybot.HttpClient.Chunked.{dechunk_body}
use mybot.HttpClient.Chunked.Bounds.{length-dechunk_body}
use mybot.HttpClient.Chunked.Encode.{encode, concat, dechunk-encode}
use mybot.HttpClient.Response.{Response, parse_response}
use mybot.HttpClient.Response.Bounds.{parse_response_bounds}
use mybot.HttpClient.Response.Print
use mybot.HttpClient.Response.Print.{parse-render}
use mybot.HttpClient.Stream.{
  Sent, count, SendRound, sent_all, send_all, Received, bytes, ReadRound, read_all, buf_max,
}
use mybot.HttpClient.Stream.Order.{send_all_lem}
use mybot.HttpClient.Stream.Buffer.{read_all_lem, arrived}
use mybot.HttpClient.Stream.{read_loop, read_answer, next_size}
use mybot.HttpClient.Complete.{response_complete, split_headers}
use mybot.Common.{
  numeral, ◌≤◌, [], refl, ◌++◌, ◌∷◌, ◌+◌, ◌<◌, length, List, arith, Text, ℕ, codes, some, ◌≡◌, true,
  false, size_max, ◌↔◌, All, take,
}

abbrev authorization : Text
authorization = codes "X-A:b" ++ (b'\r' ∷ b'\n' ∷ [])

extra_headers_iff_example :
    (extra_headers_are_safe (some authorization) ≡ true)
    ↔ ((fs : List Field) × (All WellFormed fs) × (authorization ≡ render fs))
extra_headers_iff_example = extra_headers_iff authorization

abbrev chunks : List (List ℕ)
chunks = codes "hello, " ∷ codes "chunked world" ∷ []

short : length (encode chunks) ≤ size_max
unfolding encode numeral
short = omega arith

dechunk-encode_example : dechunk_body true (encode chunks) ≡ some (concat chunks)
dechunk-encode_example = dechunk-encode chunks short (omega arith, omega arith)

length-dechunk_body_example : length (concat chunks) + 5 ≤ length (encode chunks)
length-dechunk_body_example = length-dechunk_body (encode chunks) dechunk-encode_example

abbrev found : Response
found = record { status_code = 200; body = codes "ok" }

parse-render_example :
    parse_response true (Print.render 200 (codes "OK") (codes "ok") (codes "rest")) false
    ≡ some found
parse-render_example =
    parse-render 200 (codes "OK") (codes "ok") (codes "rest") false (omega arith) (omega arith) refl
      (omega arith)

parse_response_bounds_example :
    (0 < 200)
    × (200 < 1000)
    × (length (codes "ok") + 13
        < length (Print.render 200 (codes "OK") (codes "ok") (codes "rest")))
parse_response_bounds_example =
    parse_response_bounds (Print.render 200 (codes "OK") (codes "ok") (codes "rest")) false
      parse-render_example

abbrev sends : List SendRound
sends =
    record { in_time = true; answer = count 2 }
    ∷ record { in_time = true; answer = Sent.would_block }
    ∷ record { in_time = true; answer = count 1 }
    ∷ []

send_all_lem_example :
    ((rest : Text) × (codes "GET" ≡ (send_all false sends (codes "GET")).1 ++ rest))
    × ((send_all false sends (codes "GET")).0 ≡ sent_all
        → (send_all false sends (codes "GET")).1 ≡ codes "GET")
send_all_lem_example = send_all_lem false sends (codes "GET")

abbrev reads : List ReadRound
reads =
    record { in_time = true; answer = bytes (codes "ab"); grown = true }
    ∷ record { in_time = true; answer = bytes (codes "c"); grown = true }
    ∷ record { in_time = true; answer = Received.closed; grown = true }
    ∷ []

read_test : read_all true false reads ≡ some (codes "abc", true)
unfolding read_all read_loop read_answer response_complete split_headers next_size
read_test = refl

read_all_lem_example :
    ((n : ℕ) × (codes "abc" ≡ arrived (take n reads))) × (length (codes "abc") < buf_max)
read_all_lem_example = read_all_lem false reads read_test
