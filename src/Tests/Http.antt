-- ===== src/Tests/Http.antt =====
-- Server-sent events, and the requests of the HTTP server.
use langchain_cpp.Base.{◌≡◌, refl, true, [], ◌∷◌, ◌++◌, some, ◌↔◌, arith}
use langchain_cpp.Base.Text.{Text, codes}
use langchain_cpp.Base.Json.Sample.{sample}
use langchain_cpp.Base.Outcome.{ok}
use langchain_cpp.Mcp.Sse.{extract_last_sse_event_data}
use langchain_cpp.Mcp.Sse.Events.{print_events, extract_last_sse_event_data_lem}
use langchain_cpp.Mcp.HttpRequest.{RawRequest, read_raw_request}
use langchain_cpp.Mcp.HttpServer.{respond, empty_response, origin_is_local, starts_with}
use langchain_cpp.Mcp.HttpServer.Framing.{read_raw_request_lem}
use langchain_cpp.Mcp.HttpServer.Guards.{
  IsLocal, foreign_origin, respond_refused, origin_is_local_iff,
}
use langchain_cpp.Base.Text.{strip_prefix}
use langchain_cpp.Tests.Samples.{registry}

abbrev a : Text
a = codes "a"

abbrev b : Text
b = codes "b"

extract_last_sse_event_data_lem_example :
    extract_last_sse_event_data (print_events ((a, []) ∷ (a, b ∷ []) ∷ []))
    ≡ some (97 ∷ 10 ∷ 98 ∷ [])
extract_last_sse_event_data_lem_example =
    extract_last_sse_event_data_lem ((a, []) ∷ (a, b ∷ []) ∷ []) (
      (((refl, tt), (refl, tt)), tt),
      ((((refl, tt), (refl, tt)), (((refl, tt), (refl, tt)), tt)), tt),
    )

read_raw_request_lem_example :
    read_raw_request (codes "POST /mcp HTTP/1.1" ∷ (13 ∷ 10 ∷ 13 ∷ 10 ∷ []) ∷ [])
    ≡ read_raw_request ((codes "POST /mcp HTTP/1.1" ++ 13 ∷ 10 ∷ 13 ∷ 10 ∷ []) ∷ [])
read_raw_request_lem_example =
    read_raw_request_lem (codes "POST /mcp HTTP/1.1" ∷ (13 ∷ 10 ∷ 13 ∷ 10 ∷ []) ∷ [])
      ((codes "POST /mcp HTTP/1.1" ++ 13 ∷ 10 ∷ 13 ∷ 10 ∷ []) ∷ []) refl

abbrev evil : RawRequest
evil = record {
  method = codes "POST";
  path = codes "/mcp";
  headers = (codes "origin", codes "http://evil.example") ∷ [];
  body = [];
}

not-IsLocal : ¬ IsLocal (codes "http://evil.example")
unfolding origin_is_local starts_with strip_prefix
not-IsLocal h = ground (arith, (origin_is_local_iff (codes "http://evil.example")).1 h)

respond_refused_example :
    respond sample registry (codes "/mcp") evil 0 ≡ (ok (empty_response 403 (codes "Forbidden")), 0)
respond_refused_example =
    respond_refused sample registry (codes "/mcp") foreign_origin evil 0
      (codes "http://evil.example", refl, not-IsLocal)

origin_is_local_iff_example :
    (origin_is_local (codes "http://localhost.evil.example") ≡ true)
    ↔ IsLocal (codes "http://localhost.evil.example")
origin_is_local_iff_example = origin_is_local_iff (codes "http://localhost.evil.example")
