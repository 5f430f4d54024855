-- ===== src/Mcp/HttpRequest.antt =====
-- src/mcp/mcp_http_server.cpp: reading a request. The bytes that recv gives are a list of chunks, none of
-- them empty, which ends where recv gives no more.
use langchain_cpp.Base.{
  ℕ, zero, suc, ◌+◌, ◌*◌, ◌-◌, ◌%◌, ◌^◌, Bool, true, false, not, ◌&&◌, ◌||◌, List, [], ◌∷◌, ◌++◌,
  Option, none, some, map, ◌==◌, leb, ltb, if◌then◌else◌, length, take,
}
use langchain_cpp.Base.Text.{Text, codes, break_at, break_on}
use langchain_cpp.Base.Dict.{Dict, lookup, insert}
use langchain_cpp.Base.Outcome.{Outcome, ok, throws, ◌>>=◌}
use langchain_cpp.Core.Message.MediaType.{to_lower}

pub record RawRequest : Type 0 where
  pub method : Text
  pub path : Text
  pub headers : Dict Text
  pub body : Text

abbrev pub crlf : Text
crlf = 13 ∷ 10 ∷ []

-- The loop on the head: what stands before the blank line, what was read behind it, and the chunks
-- that are left.
abbrev pub head_or :
    Option (Text × Text)
    → List Text
    → Outcome (Text × (Text × List Text))
    → Outcome (Text × (Text × List Text))
head_or (some (head, rest)) chunks more = ok (head, (rest, chunks))
head_or none chunks more = more

unfoldable pub read_head : Text → List Text → Outcome (Text × (Text × List Text))
read_head buffer [] =
    head_or (break_on (crlf ++ crlf) buffer) []
      (throws (codes "McpHttpServer: connection closed before headers were complete"))
read_head buffer (chunk ∷ chunks) =
    head_or (break_on (crlf ++ crlf) buffer) (chunk ∷ chunks) (read_head (buffer ++ chunk) chunks)

abbrev pub drop_one : Text → Text
drop_one [] = []
drop_one (c ∷ s) = s

-- The request line, and where the header lines start. Without a line end, npos + 2 is 1.
unfoldable pub request_line : Text → Text × Text
request_line head = elim (break_on crlf head) [
  | some (line, rest) ↦ (line, rest)
  | none ↦ (head, drop_one head)
]

-- The text up to the first blank, or the whole.
unfoldable pub up_to_blank : Text → Text
up_to_blank s = elim (break_at 32 s) [ some (a, b) ↦ a | none ↦ s ]

-- The method and the path. Without a blank, both are the whole line.
unfoldable pub method_path : Text → Text × Text
unfolding up_to_blank
method_path line = elim (break_at 32 line) [
  | some (a, b) ↦ (a, up_to_blank b)
  | none ↦ (line, line)
]

-- value.substr(value.find_first_not_of(" \t"))
unfoldable pub trim_start : Text → Text
trim_start [] = []
trim_start (c ∷ s) = if c == 32 || c == 9 then trim_start s else c ∷ s

unfoldable pub add_header : Text → Dict Text → Dict Text
unfolding trim_start
add_header line headers = elim (break_at 58 line) [
  | some (name, value) ↦ insert (map to_lower name) (trim_start value) headers
  | none ↦ headers
]

-- The loop over the header lines, each of which passes a line end: the length of the rest is enough
-- fuel.
unfoldable pub add_headers : ℕ → Text → Dict Text → Dict Text
unfolding add_header
add_headers zero rest headers = headers
add_headers (suc fuel) [] headers = headers
add_headers (suc fuel) (c ∷ rest) headers = elim (break_on crlf (c ∷ rest)) [
  | some (line, rest') ↦ add_headers fuel rest' (add_header line headers)
  | none ↦ add_header (c ∷ rest) headers
]

-- The digits at the start, read onto a number, and whether there is one.
unfoldable pub digits : Text → ℕ → ℕ
digits [] n = n
digits (c ∷ s) n = if leb 48 c && leb c 57 then digits s (n * 10 + (c - 48)) else n

unfoldable pub starts_with_digit : Text → Bool
starts_with_digit [] = false
starts_with_digit (c ∷ s) = leb 48 c && leb c 57

unfoldable pub unsigned : Bool → Text → Outcome ℕ
unfolding digits starts_with_digit
unsigned negated s =
    let n = digits s 0 in
    if not (starts_with_digit s)
    then throws (codes "stoul")
    else if leb (2 ^ 64) n
    then throws (codes "stoul")
    else ok (if negated then (2 ^ 64 - n) % 2 ^ 64 else n)

unfoldable pub skip_space : Text → Text
skip_space [] = []
skip_space (c ∷ s) = if c == 32 || (leb 9 c && leb c 13) then skip_space s else c ∷ s

unfoldable pub signed : Text → Outcome ℕ
unfolding unsigned
signed [] = throws (codes "stoul")
signed (c ∷ s) =
    if c == 45
    then unsigned true s
    else if c == 43
    then unsigned false s
    else unsigned false (c ∷ s)

-- std::stoul
unfoldable pub stoul : Text → Outcome ℕ
unfolding skip_space signed
stoul s = signed (skip_space s)

unfoldable pub content_length : Dict Text → Outcome ℕ
unfolding stoul
content_length headers = elim (lookup (codes "content-length") headers) [
  | none ↦ ok 0
  | some value ↦ stoul value
]

-- The loop on the body.
unfoldable pub read_body : ℕ → Text → List Text → Outcome Text
read_body n body [] =
    if ltb (length body) n
    then throws (codes "McpHttpServer: connection closed before body was complete")
    else ok (take n body)
read_body n body (chunk ∷ chunks) =
    let more = read_body n (body ++ chunk) chunks in
    if ltb (length body) n then more else ok (take n body)

abbrev pub request_with : Text → Text → Dict Text → Text → RawRequest
request_with method path headers body = record {
  method = method;
  path = path;
  headers = headers;
  body = body;
}

unfoldable pub read_request : Text × (Text × List Text) → Outcome RawRequest
unfolding request_line method_path add_headers content_length read_body
read_request (head, (rest, chunks)) =
    let (line, header_text) = request_line head in
    let (method, path) = method_path line in
    let headers = add_headers (length header_text) header_text [] in
    content_length headers >>= λ n.
    read_body n rest chunks >>= λ body. ok (request_with method path headers body)

unfoldable pub read_raw_request : List Text → Outcome RawRequest
unfolding read_head read_request
read_raw_request chunks = read_head [] chunks >>= read_request
