-- ===== src/Tests/Mcp.antt =====
-- The protocol, the server and the client with the sample registry.
use langchain_cpp.Base.{true, false}
use langchain_cpp.Base.Text.{break_at}
use langchain_cpp.Mcp.Sse.{drop_return}
use langchain_cpp.Mcp.StdioTransport.{Input, chunk, interrupted, read_line, destroy}
use langchain_cpp.Mcp.StdioTransport.Lines.{seen, read_line_lem}
use langchain_cpp.Mcp.StdioTransport.Sending.{Ended, destroy_lem}
use langchain_cpp.Base.{◌≡◌, refl, [], ◌∷◌, some}
use langchain_cpp.Base.Text.{codes}
use langchain_cpp.Base.Json.{natural}
use langchain_cpp.Base.Json.Sample.{Tree, sample}
use langchain_cpp.Base.Outcome.{Outcome, ok, throws}
use langchain_cpp.Tools.Tool.{success}
use langchain_cpp.Tools.Registry.{get}
use langchain_cpp.Mcp.JsonRpc.{JsonRpcRequest, build_request, build_success_response, parse_request}
use langchain_cpp.Mcp.Server.{handle_message}
use langchain_cpp.Mcp.Server.Laws.{handle_message_answers, handle_message_throws}
use langchain_cpp.Mcp.Client.{call_tool}
use langchain_cpp.Mcp.Client.Served.{direct, outcome, call_tool_served}
use langchain_cpp.Tests.Samples.{registry, echo}

call_tool_served_example :
    call_tool sample
      (direct sample registry)
      (codes "echo")
      sample.null
      (record { next_id = 4; world = 7 })
    ≡ (outcome sample registry (ok (success sample.null)), record { next_id = 5; world = 8 })
unfolding get
call_tool_served_example =
    call_tool_served sample registry (codes "echo") sample.null echo
      (record { next_id = 4; world = 7 }) refl

abbrev listing : Tree
listing = build_request sample (natural 1) (codes "tools/list") (sample.object [])

abbrev listing_request : JsonRpcRequest Tree
listing_request = record {
  id = sample.integer (natural 1);
  method = codes "tools/list";
  params = sample.object [];
}

handle_message_answers_example :
    (response : Tree) × ((handle_message sample registry listing 0).0 ≡ ok (some response))
    × (sample.find (codes "id") response ≡ some (sample.integer (natural 1)))
unfolding build_request parse_request
handle_message_answers_example =
    handle_message_answers sample registry listing listing_request 0 refl refl

abbrev numbered : Tree
numbered = sample.object ((codes "id", sample.null) ∷ (codes "method", sample.null) ∷ [])

handle_message_throws_example :
    handle_message sample registry numbered 0 ≡ (throws (codes "type error"), 0)
handle_message_throws_example =
    handle_message_throws sample registry numbered sample.null sample.null 0 refl refl refl refl

abbrev response_line : Tree
response_line = build_success_response sample (sample.integer (natural 1)) sample.null

abbrev input : Input
input = record {
  read_buffer = codes "a";
  reads = chunk (98 ∷ 13 ∷ []) ∷ interrupted ∷ chunk (codes "\nc") ∷ [];
}

read_line_lem_example : seen (read_line input) ≡ (ok (some (codes "ab")), codes "c")
unfolding break_at drop_return
read_line_lem_example = read_line_lem input (tt, (tt, (tt, tt)))

destroy_lem_example : Ended 25 true (destroy true true true (false ∷ true ∷ []))
destroy_lem_example = destroy_lem true true (false ∷ true ∷ [])
