-- ===== src/Mcp/HttpServer.antt =====
-- src/mcp/mcp_http_server.cpp: answering a request.
pub mod Guards
pub mod Framing
use langchain_cpp.Base.{
  ℕ, zero, suc, ◌+◌, ◌*◌, ◌-◌, ◌%◌, ◌^◌, Bool, true, false, not, ◌&&◌, ◌||◌, List, [], ◌∷◌, ◌++◌,
  Option, none, some, map, ◌==◌, leb, ltb, if◌then◌else◌, length, take, is_empty,
}
use langchain_cpp.Base.Text.{Text, codes, text_eq, break_at, break_on, strip_prefix}
use langchain_cpp.Base.Dict.{Dict, lookup, insert}
use langchain_cpp.Base.Decimal.{to_string}
use langchain_cpp.Base.Json.{Json, is_some, printed}
use langchain_cpp.Base.Outcome.{Outcome, ok, throws, ◌>>=◌}
use langchain_cpp.Core.Message.MediaType.{to_lower}
use langchain_cpp.Tools.Registry.{ToolRegistry}
use langchain_cpp.Mcp.Server.{handle_message}
use langchain_cpp.Mcp.HttpRequest.{RawRequest, crlf, read_raw_request}

pub record RawResponse : Type 0 where
  pub status : ℕ
  pub reason : Text
  pub body : Text

-- What write_raw_response sends.
unfoldable pub response_bytes : RawResponse → Text
response_bytes r =
    codes "HTTP/1.1 "
    ++ (to_string r.status
        ++ (32
            ∷ (r.reason
                ++ (crlf
                    ++ (codes "Content-Type: application/json"
                        ++ (crlf
                            ++ (codes "Content-Length: "
                                ++ (to_string (length r.body)
                                    ++ (crlf
                                        ++ (codes "Connection: close"
                                            ++ (crlf ++ (crlf ++ r.body))))))))))))

unfoldable pub starts_with : Text → Text → Bool
starts_with prefix s = is_some (strip_prefix prefix s)

unfoldable pub origin_is_local : Text → Bool
unfolding starts_with
origin_is_local origin =
    starts_with (codes "http://localhost") origin
    || starts_with (codes "http://127.0.0.1") origin
    || starts_with (codes "https://localhost") origin
    || starts_with (codes "https://127.0.0.1") origin

-- There is an Origin header, and it is not a local one.
abbrev pub is_foreign : Option Text → Bool
is_foreign none = false
is_foreign (some origin) = not (origin_is_local origin)

abbrev pub empty_response : ℕ → Text → RawResponse
empty_response status reason = record { status = status; reason = reason; body = [] }

module _ (J : Json) {W : Type 0} (registry : ToolRegistry J.Value W) (server_path : Text) where
  open J use {Value, parse}

  abbrev pub accepted : Option Value → Outcome RawResponse
  accepted none = ok (empty_response 202 (codes "Accepted"))
  accepted (some response) =
      printed J response >>= λ body. ok (record { status = 200; reason = codes "OK"; body = body })

  -- Of what parse throws, only a parse_error is caught.
  abbrev pub respond_parsed : Outcome Value → W → Outcome RawResponse × W
  respond_parsed (throws e) w =
      (if J.is_parse_error e then ok (empty_response 400 (codes "Bad Request")) else throws e, w)
  respond_parsed (ok message) w =
      let (r, w') = handle_message J registry message w in (r >>= accepted, w')

  -- What run does with a request.
  unfoldable pub respond : RawRequest → W → Outcome RawResponse × W
  respond request w =
      if is_foreign (lookup (codes "origin") request.headers)
      then (ok (empty_response 403 (codes "Forbidden")), w)
      else if not (text_eq request.path server_path)
      then (ok (empty_response 404 (codes "Not Found")), w)
      else if not (text_eq request.method (codes "POST"))
      then (ok (empty_response 405 (codes "Method Not Allowed")), w)
      else respond_parsed (parse request.body) w

  abbrev pub respond_to : Outcome RawRequest → W → Outcome RawResponse × W
  respond_to (ok request) w = respond request w
  respond_to (throws e) w = (throws e, w)

  abbrev pub sent : Outcome RawResponse → Text
  sent (ok r) = response_bytes r
  sent (throws e) = []

  -- One connection that is accepted: the bytes sent before it is closed. An exception sends none.
  unfoldable pub serve_connection : List Text → W → Text × W
  unfolding respond
  serve_connection chunks w = let (r, w') = respond_to (read_raw_request chunks) w in (sent r, w')
