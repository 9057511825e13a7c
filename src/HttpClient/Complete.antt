-- ===== src/HttpClient/Complete.antt =====
-- `response_content_length_complete`: whether a body with a Content-Length has arrived.
use mybot.HttpClient.Response.{ascii_case_equal, parse_content_length}
use mybot.Common.{
  true, zero, [], drop, ◌++◌, ◌&&◌, leb, ◌==◌, ◌+◌, if◌then◌else◌, length, ◌∷◌, suc, false, Option,
  Bool, Text, ℕ, ◌>>=◌, codes, some, none,
}

-- The bytes before the first empty line and those after it.
unfoldable pub split_headers : Text → Option (Text × Text)
split_headers (c0 ∷ c1 ∷ c2 ∷ c3 ∷ cs) =
    let later = split_headers (c1 ∷ c2 ∷ c3 ∷ cs) in
    if c0 == b'\r' && c1 == b'\n' && c2 == b'\r' && c3 == b'\n'
    then some ([], cs)
    else later >>= λ (headers, body). some (c0 ∷ headers, body)
split_headers p = none

-- `strstr(line, "\r\n")`, which stops at a zero byte.
unfoldable pub find_crlf : Text → Option (Text × Text)
find_crlf [] = none
find_crlf (c ∷ []) = none
find_crlf (c ∷ d ∷ cs) =
    let later = find_crlf (d ∷ cs) in
    if c == 0
    then none
    else if c == b'\r' && d == b'\n'
    then some ([], cs)
    else later >>= λ (line, rest). some (c ∷ line, rest)

-- The value of the Content-Length lines read so far, up to the line end at `headers_end`; `none` where
-- one is malformed or two differ. Every round takes at least two bytes.
unfoldable pub content_length_lines : ℕ → Option ℕ → Text → Option (Option ℕ)
content_length_lines zero found p = some found
content_length_lines (suc fuel) found p =
    if leb (length p) 2 then some found else elim (find_crlf p) [
      | none ↦ some found
      | some (line, rest) ↦
          elim (leb 15 (length line) && ascii_case_equal line (codes "Content-Length:") 15) [
            | false ↦ content_length_lines fuel found rest
            | true ↦ elim (parse_content_length (drop 15 (line ++ (b'\r' ∷ [])))) [
              | none ↦ none
              | some n ↦ elim found [
                | none ↦ content_length_lines fuel (some n) rest
                | some m ↦ if m == n then content_length_lines fuel (some n) rest else none
              ]
            ]
          ]
    ]

unfoldable pub response_complete : Text → Bool
response_complete buf = elim (split_headers buf) [
  | none ↦ false
  | some (headers, body) ↦
      elim (content_length_lines (length headers + 3) none (headers ++ (b'\r' ∷ b'\n' ∷ []))) [
        | some (some n) ↦ leb n (length body)
        | _ ↦ false
      ]
]
