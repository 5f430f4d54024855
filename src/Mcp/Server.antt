-- ===== src/Mcp/Server.antt =====
-- include/langchain/mcp/mcp_server.hpp and src/mcp/mcp_server.cpp. A call of a tool may change the
-- world `W`. The input stream is the list of its lines, the output stream the list of the lines
-- written.
pub mod Laws
use langchain_cpp.Base.{
  Bool, true, false, List, [], ◌∷◌, ◌++◌, Option, none, some, if◌then◌else◌, is_empty,
}
use langchain_cpp.Base.Text.{Text, codes, text_eq}
use langchain_cpp.Base.Json.{Json, Integer, negative, at, value, get_string, printed}
use langchain_cpp.Base.Outcome.{Outcome, ok, throws, ◌>>=◌}
use langchain_cpp.Base.Exec.{Exec}
use langchain_cpp.Tools.Tool.{Result, Tool}
use langchain_cpp.Tools.Registry.{ToolRegistry, get}
use langchain_cpp.Mcp.JsonRpc.{
  JsonRpcRequest, is_request, parse_request, build_success_response, build_error_response,
}
use langchain_cpp.Mcp.Protocol.{
  build_initialize_result, build_tools_list_result, build_call_tool_result,
}

-- The codes -32602, -32601 and -32603.
abbrev pub invalid_params : Integer
invalid_params = negative 32601

abbrev pub method_not_found : Integer
method_not_found = negative 32600

abbrev pub internal_error : Integer
internal_error = negative 32602

module _ (J : Json) where
  open J use {Value, object, parse}

  -- params.at("name").get<std::string>() and params.value("arguments", …)
  unfoldable pub call_arguments : Value → Outcome (Text × Value)
  call_arguments params = do
    name ← at J (codes "name") params >>= get_string J
    arguments ← value J (codes "arguments") params (object [])
    ok (name, arguments)

  -- The catch clause around the dispatch.
  abbrev pub caught_response : Value → Outcome Value → Value
  caught_response id (ok response) = response
  caught_response id (throws e) = build_error_response J id internal_error e

  abbrev pub call_response : Value → Outcome (Result Value) → Outcome Value
  call_response id (ok r) = ok (build_success_response J id (build_call_tool_result J r))
  call_response id (throws e) = throws e

  module _ {W : Type 0} (registry : ToolRegistry Value W) where
    abbrev call_tool : Value → Text → Value → Option (Tool Value W) → Exec W Value
    call_tool id name arguments none w = (
      ok (build_error_response J id invalid_params (codes "Tool " ++ (name ++ codes " not found"))),
      w,
    )
    call_tool id name arguments (some t) w =
        let (r, w') = t.call arguments w in (call_response id r, w')

    -- The branch for tools/call.
    abbrev tools_call : Value → Outcome (Text × Value) → Exec W Value
    tools_call id (ok (name, arguments)) w = call_tool id name arguments (get name registry) w
    tools_call id (throws e) w = (throws e, w)

    unfoldable pub dispatch : JsonRpcRequest Value → Exec W Value
    unfolding call_arguments
    dispatch request w =
        if text_eq request.method (codes "initialize")
        then (ok (build_success_response J request.id (build_initialize_result J)), w)
        else if text_eq request.method (codes "tools/list")
        then (
          ok (build_success_response J request.id (build_tools_list_result J registry.tools)),
          w,
        )
        else if text_eq request.method (codes "tools/call")
        then tools_call request.id (call_arguments request.params) w
        else (
          ok (
              build_error_response J request.id method_not_found
                (codes "Method not found: " ++ request.method)),
          w,
        )

    abbrev pub respond : Outcome (JsonRpcRequest Value) → Exec W (Option Value)
    respond (ok request) w =
        let (r, w') = dispatch request w in (ok (some (caught_response request.id r)), w')
    respond (throws e) w = (throws e, w)

    -- McpServer::handle_message. What parse_request throws is not caught.
    unfoldable pub handle_message : Value → Exec W (Option Value)
    unfolding dispatch
    handle_message message w =
        if is_request J message then respond (parse_request J message) w else (ok none, w)

    -- The lines written after a message.
    abbrev written : Option Value → Outcome (List Text)
    written none = ok []
    written (some response) = printed J response >>= λ line. ok (line ∷ [])

    -- What one line makes the server do. Of what parse throws, only a parse_error is caught.
    abbrev serve_parsed : Outcome Value → Exec W (List Text)
    serve_parsed (throws e) w = (if J.is_parse_error e then ok [] else throws e, w)
    serve_parsed (ok message) w = let (r, w') = handle_message message w in (r >>= written, w')

    unfoldable pub serve_line : Text → Exec W (List Text)
    unfolding handle_message
    serve_line line w = if is_empty line then (ok [], w) else serve_parsed (parse line) w

    -- McpServer::serve: how it ends, the lines written and the world then.
    abbrev serve_rest :
        Outcome (List Text)
        → W
        → (W → Outcome (Unit {0}) × (List Text × W))
        → Outcome (Unit {0}) × (List Text × W)
    serve_rest (throws e) w rest = (throws e, ([], w))
    serve_rest (ok out) w rest = let (r, (outs, w')) = rest w in (r, (out ++ outs, w'))

    unfoldable pub serve : List Text → W → Outcome (Unit {0}) × (List Text × W)
    unfolding serve_line
    serve [] w = (ok tt, ([], w))
    serve (line ∷ lines) w = let (r, w') = serve_line line w in serve_rest r w' (serve lines)
