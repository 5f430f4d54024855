-- ===== src/Mcp/JsonRpc.antt =====
-- src/mcp/jsonrpc.hpp and src/mcp/jsonrpc.cpp: JSON-RPC 2.0 messages.
use langchain_cpp.Base.{Bool, [], ◌∷◌, not, ◌&&◌, if◌then◌else◌}
use langchain_cpp.Base.Text.{Text, codes}
use langchain_cpp.Base.Json.{Json, Integer, contains, at, value, value_string, get_string}
use langchain_cpp.Base.Outcome.{Outcome, ok, ◌>>=◌}

-- JsonRpcResponse: a result, or the message of an error.
pub data JsonRpcResponse (V : Type 0) : Type 0 where
  result : V → JsonRpcResponse V
  error_message : Text → JsonRpcResponse V

pub record JsonRpcRequest (V : Type 0) : Type 0 where
  pub id : V
  pub method : Text
  pub params : V

module _ (J : Json) where
  open J use {Value, object, string, integer}

  unfoldable pub build_request : Integer → Text → Value → Value
  build_request id method params = object (
      (codes "jsonrpc", string (codes "2.0"))
      ∷ (codes "id", integer id)
      ∷ (codes "method", string method)
      ∷ (codes "params", params)
      ∷ [])

  unfoldable pub build_notification : Text → Value → Value
  build_notification method params = object (
      (codes "jsonrpc", string (codes "2.0"))
      ∷ (codes "method", string method)
      ∷ (codes "params", params)
      ∷ [])

  abbrev pub is_response : Value → Bool
  is_response message = contains J (codes "id") message && not (contains J (codes "method") message)

  unfoldable pub parse_error : Value → Outcome (JsonRpcResponse Value)
  parse_error message = do
    e ← at J (codes "error") message
    text ← value_string J (codes "message") e (codes "unknown error")
    ok (error_message text)

  unfoldable pub parse_result : Value → Outcome (JsonRpcResponse Value)
  parse_result message = do r ← value J (codes "result") message (object []); ok (result r)

  unfoldable pub parse_response : Value → Outcome (JsonRpcResponse Value)
  unfolding parse_error parse_result
  parse_response message =
      if contains J (codes "error") message then parse_error message else parse_result message

  abbrev pub is_request : Value → Bool
  is_request message = contains J (codes "method") message && contains J (codes "id") message

  unfoldable pub parse_request : Value → Outcome (JsonRpcRequest Value)
  parse_request message = do
    id ← at J (codes "id") message
    method ← at J (codes "method") message >>= get_string J
    params ← value J (codes "params") message (object [])
    ok (record { id = id; method = method; params = params })

  unfoldable pub build_success_response : Value → Value → Value
  build_success_response id v =
      object ((codes "jsonrpc", string (codes "2.0")) ∷ (codes "id", id) ∷ (codes "result", v) ∷ [])

  unfoldable pub build_error_response : Value → Integer → Text → Value
  build_error_response id code message = object (
      (codes "jsonrpc", string (codes "2.0"))
      ∷ (codes "id", id)
      ∷ (
        codes "error",
        object ((codes "code", integer code) ∷ (codes "message", string message) ∷ []),
      )
      ∷ [])
