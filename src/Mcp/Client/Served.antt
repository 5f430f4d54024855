-- ===== src/Mcp/Client/Served.antt =====
-- The client and the server together: a transport that hands every request to the server and reads
-- its response as the transports of the source do.
use langchain_cpp.Base.{ℕ, suc, ◌≡◌, true, [], ◌∷◌, Option, none, some}
use langchain_cpp.Base.Text.{Text, codes}
use langchain_cpp.Base.Json.{Json, Integer, natural}
use langchain_cpp.Base.Outcome.{Outcome, ok, throws, ◌>>=◌}
use langchain_cpp.Tools.Tool.{Result, Tool}
use langchain_cpp.Tools.Registry.{ToolRegistry, get}
use langchain_cpp.Mcp.JsonRpc.{
  JsonRpcResponse, result, error_message, JsonRpcRequest, build_request, parse_response,
  parse_error, parse_result, parse_request, is_request, build_success_response,
  build_error_response,
}
use langchain_cpp.Mcp.Protocol.{parse_call_tool_result, build_call_tool_result}
use langchain_cpp.Mcp.Protocol.RoundTrip.{seen, call_result_round_trip}
use langchain_cpp.Mcp.Server.{
  handle_message, dispatch, call_arguments, internal_error, call_response, caught_response, respond,
}
use langchain_cpp.Mcp.Client.{ClientTransport, ClientState, send_request, call_tool}

module _ (J : Json) {W : Type 0} (registry : ToolRegistry J.Value W) where
  open J use {Value, string, object, find}

  abbrev reply : Outcome (JsonRpcResponse Value) → Outcome Value
  reply (ok (result v)) = ok v
  reply (ok (error_message e)) = throws e
  reply (throws e) = throws e

  abbrev answer : Outcome (Option Value) → Outcome Value
  answer (ok (some response)) = reply (parse_response J response)
  answer (ok none) = throws (codes "no response")
  answer (throws e) = throws e

  abbrev pub direct : ClientTransport Value W
  direct = record {
    send_request = λ message w. let (r, w') = handle_message J registry message w in (answer r, w');
    send_notification =
        λ message w. let (r, w') = handle_message J registry message w in (ok tt, w');
  }

  parse_success : (id v : Value) → parse_response J (build_success_response J id v) ≡ ok (result v)
  unfolding parse_response parse_result build_success_response
  parse_success id v = simp (J.is_object-object, J.find-object)

  parse_failure :
      (id : Value) (code : Integer) (e : Text)
      → parse_response J (build_error_response J id code e) ≡ ok (error_message e)
  unfolding parse_response parse_error build_error_response
  parse_failure id code e = simp (J.is_object-object, J.find-object, J.as_string-string)

  is_request-build_request :
      (n : Integer) (method : Text) (params : Value)
      → is_request J (build_request J n method params) ≡ true
  unfolding build_request
  is_request-build_request n method params = simp J.find-object

  parse_request-build_request :
      (n : Integer) (method : Text) (params : Value)
      → parse_request J (build_request J n method params)
        ≡ ok (record { id = J.integer n; method = method; params = params })
  unfolding parse_request build_request
  parse_request-build_request n method params =
      simp (J.is_object-object, J.find-object, J.as_string-string)

  call_arguments_lem :
      (name : Text) (arguments : Value)
      → call_arguments J
          (object ((codes "name", string name) ∷ (codes "arguments", arguments) ∷ []))
        ≡ ok (name, arguments)
  unfolding call_arguments
  call_arguments_lem name arguments = simp (J.is_object-object, J.find-object, J.as_string-string)

  -- What the client is to get of the tool's call.
  abbrev pub outcome : Outcome (Result Value) → Outcome Value
  outcome (ok r) = seen J r
  outcome (throws e) = throws e

  abbrev tools_call_request : ℕ → Text → Value → JsonRpcRequest Value
  tools_call_request n name arguments = record {
    id = J.integer (natural n);
    method = codes "tools/call";
    params = object ((codes "name", string name) ∷ (codes "arguments", arguments) ∷ []);
  }

  answer_lem :
      (id : Value) (r : Outcome (Result Value))
      → (answer (ok (some (caught_response J id (call_response J id r))))
          >>= parse_call_tool_result J)
        ≡ outcome r
  answer_lem id (ok r) =
      rw (parse_success id (build_call_tool_result J r)) (call_result_round_trip J r)
  answer_lem id (throws e) = rw (parse_failure id internal_error e)

  respond_call :
      (n : ℕ) (name : Text) (arguments : Value) (t : Tool Value W) (w : W)
      → get name registry ≡ some t
      → respond J registry (ok (tools_call_request n name arguments)) w ≡ (
        ok (
            some (
              caught_response J
                (J.integer (natural n))
                (call_response J (J.integer (natural n)) (t.call arguments w).0))),
        (t.call arguments w).1,
      )
  unfolding dispatch
  respond_call n name arguments t w g = simp (call_arguments_lem name arguments, g)

  handle_call :
      (n : ℕ) (name : Text) (arguments : Value) (t : Tool Value W) (w : W)
      → get name registry ≡ some t
      → handle_message J registry
          (build_request J
            (natural n)
            (codes "tools/call")
            (object ((codes "name", string name) ∷ (codes "arguments", arguments) ∷ [])))
          w
        ≡ (
          ok (
              some (
                caught_response J
                  (J.integer (natural n))
                  (call_response J (J.integer (natural n)) (t.call arguments w).0))),
          (t.call arguments w).1,
        )
  unfolding handle_message
  handle_call n name arguments t w g =
      rw (is_request-build_request, parse_request-build_request)
        (respond_call n name arguments t w g)

  -- Over a transport that loses nothing, calling a registered tool runs it once on the arguments and
  -- gives the client the text of its value, or throws its error, and the next id is one more.
  pub call_tool_served :
      (name : Text) (arguments : Value) (t : Tool Value W) (s : ClientState W)
      → get name registry ≡ some t
      → call_tool J direct name arguments s ≡ (
        outcome (t.call arguments s.world).0,
        record { next_id = suc s.next_id; world = (t.call arguments s.world).1 },
      )
  unfolding call_tool send_request
  call_tool_served name arguments t s g =
      rw (handle_call s.next_id name arguments t s.world g, answer_lem)
