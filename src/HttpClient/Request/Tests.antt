-- ===== src/HttpClient/Request/Tests.antt =====
-- A request at concrete inputs.
use mybot.HttpClient.Request.Exchange.{http_request_sent}
use mybot.HttpClient.Request.{
  Call, Surroundings, request_text, http_request, include_port, host_header, text_or, get_text,
  post_text, headers_are_safe, fits_buffers,
}
use mybot.HttpClient.Headers.{
  extra_headers_are_safe, header_name_char, header_value_char, split_line, header_line_is_safe,
  lines_are_safe, header_value_is_safe,
}
use mybot.HttpClient.Response.{
  parse_response, fold_case, ascii_case_equal, blank, length_fits, skip_cr, parse_content_length,
  parse_status_line, separator, token_char, names_chunked, content_length_field,
  transfer_encoding_field, until_lf, ends_headers, parse_headers, frame_body,
}
use mybot.HttpClient.Response.Print.{render}
use mybot.HttpClient.Stream.{
  bytes, send_all, count, send_answer, next_size, read_answer, read_loop, read_all,
}
use mybot.Url.{
  Parts, parse, host_byte, host_is_safe, target_byte, request_target_is_safe, scheme, host_end,
  port_fits, parse_port, parse_path, parse_host,
}
use mybot.Url.Safe.{Safe}
use mybot.Common.{
  refl, ◌<◌, [], length, ◌≡◌, ◌∷◌, codes, some, none, true, false, strip, scan, decimal_digit,
  decimal, numeral,
}
use mybot.HttpClient.Complete.{split_headers, find_crlf, content_length_lines, response_complete}

abbrev ping : Call
ping = record {
  post = false;
  url = codes "https://h/p";
  content_type = none;
  req_body = none;
  extra_headers = none;
}

abbrev peer : Surroundings
peer = record {
  connected = true;
  req_allocated = true;
  sends =
      record { in_time = true; answer = count 20 }
      ∷ record { in_time = true; answer = count 27 }
      ∷ [];
  buf_allocated = true;
  reads =
      record { in_time = true; answer = bytes (render 204 (codes "No") [] []); grown = true } ∷ [];
  body_allocated = true;
}

answered : http_request true false ping peer ≡ some (record { status_code = 204; body = [] })
unfolding host_byte host_is_safe target_byte request_target_is_safe scheme host_end port_fits
    parse_port parse_path parse_host parse include_port host_header text_or get_text post_text
    request_text headers_are_safe fits_buffers http_request header_name_char header_value_char
    split_line header_line_is_safe lines_are_safe extra_headers_are_safe header_value_is_safe
    fold_case ascii_case_equal blank length_fits skip_cr parse_content_length parse_status_line
    separator token_char names_chunked content_length_field transfer_encoding_field until_lf
    ends_headers parse_headers frame_body parse_response send_answer send_all next_size read_answer
    read_loop read_all split_headers find_crlf content_length_lines response_complete render strip
    scan decimal_digit decimal numeral
answered = refl

http_request_sent_example :
    ((parts : Parts) × (Safe true false parts)
      × (parse true false ping.url ≡ some parts)
      × (length (request_text ping parts) < 2048)
      × ((send_all parts.use_tls peer.sends (request_text ping parts)).1 ≡ request_text ping parts))
    × (extra_headers_are_safe none ≡ true)
http_request_sent_example = http_request_sent true false ping peer answered
