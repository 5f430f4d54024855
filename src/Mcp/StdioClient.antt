-- ===== src/Mcp/StdioClient.antt =====
-- src/mcp/stdio_client_transport.hpp and src/mcp/stdio_client_transport.cpp. The world is the lines
-- that the server is still to write, and those written to it; the line that StdioTransport::read_line
-- does not give is the end of the list. The loop over the lines is recursion on them.
pub mod Waiting
use langchain_cpp.Base.{Bool, true, false, not, ◌||◌, List, [], ◌∷◌, ◌++◌, if◌then◌else◌, is_empty}
use langchain_cpp.Base.Text.{Text, codes}
use langchain_cpp.Base.Json.{
  Json, Integer, negative, integer_eq, at, get_integer, value_integer, value_string,
}
use langchain_cpp.Base.Outcome.{Outcome, ok, throws, ◌>>=◌}
use langchain_cpp.Base.Exec.{Exec}
use langchain_cpp.Mcp.JsonRpc.{JsonRpcResponse, result, error_message, is_response, parse_response}
use langchain_cpp.Mcp.Client.{ClientTransport}

pub record Pipes : Type 0 where
  pub incoming : List Text
  pub outgoing : List Text

unfoldable pub write_line : Text → Pipes → Pipes
write_line line p = record p { outgoing = p.outgoing ++ line ∷ [] }

module _ (J : Json) where
  open J use {Value, dump, parse}

  -- message.value("id", -1) != id
  unfoldable pub is_other : Integer → Value → Outcome Bool
  is_other id message = do
    i ← value_integer J (codes "id") message (negative 0)
    ok (not (integer_eq i id))

  -- Whether the loop goes on past the message.
  unfoldable pub is_skipped : Integer → Value → Outcome Bool
  unfolding is_other
  is_skipped id message = if not (is_response J message) then ok true else is_other id message

  unfoldable pub response_outcome : JsonRpcResponse Value → Outcome Value
  response_outcome (result v) = ok v
  response_outcome (error_message e) = throws (codes "StdioClientTransport: request failed: " ++ e)

  unfoldable pub final_outcome : Value → Outcome Value
  unfolding response_outcome
  final_outcome message = parse_response J message >>= response_outcome

  -- What a line that is JSON does, where `rest` is the loop on the lines behind it.
  abbrev pub read_message :
      Integer
      → Value
      → Outcome Bool
      → List Text
      → Outcome Value × List Text
      → Outcome Value × List Text
  read_message id message (throws e) lines rest = (throws e, lines)
  read_message id message (ok true) lines rest = rest
  read_message id message (ok false) lines rest = (final_outcome message, lines)

  -- Of what parse throws, only a parse_error is caught.
  abbrev pub read_parsed :
      Integer → Outcome Value → List Text → Outcome Value × List Text → Outcome Value × List Text
  read_parsed id (throws e) lines rest = if J.is_parse_error e then rest else (throws e, lines)
  read_parsed id (ok message) lines rest =
      read_message id message (is_skipped id message) lines rest

  -- The loop that waits for the response: its outcome, and the lines that are left.
  unfoldable pub wait_for : Value → Integer → List Text → Outcome Value × List Text
  wait_for request id [] = (
    value_string J (codes "method") request (codes "request") >>= (λ method.
        throws
          (codes "StdioClientTransport: server closed its output before responding to " ++ method)),
    [],
  )
  wait_for request id (line ∷ lines) =
      let rest = wait_for request id lines in
      if is_empty line then rest else read_parsed id (parse line) lines rest

  abbrev pub request_with : Value → Outcome Integer → Exec Pipes Value
  request_with request (throws e) p = (throws e, p)
  request_with request (ok id) p =
      let (r, lines) = wait_for request id p.incoming in
      (r, record (write_line (dump request) p) { incoming = lines })

  -- StdioClientTransport::send_request
  unfoldable pub send_request : Value → Exec Pipes Value
  unfolding wait_for
  send_request request = request_with request (at J (codes "id") request >>= get_integer J)

  unfoldable pub send_notification : Value → Exec Pipes (Unit {0})
  send_notification notification p = (ok tt, write_line (dump notification) p)

  abbrev pub stdio_client_transport : ClientTransport Value Pipes
  stdio_client_transport = record {
    send_request = send_request;
    send_notification = send_notification;
  }
