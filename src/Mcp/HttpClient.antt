-- ===== src/Mcp/HttpClient.antt =====
-- src/mcp/http_client_transport.hpp and src/mcp/http_client_transport.cpp. cpr::Post is a parameter:
-- the headers and the body sent, and the response that comes back. The world is the session id with
-- the world `W` of the network.
use langchain_cpp.Base.{not, [], ◌∷◌, ◌++◌, Option, none, some, ◌==◌, if◌then◌else◌, is_empty}
use langchain_cpp.Base.Text.{Text, codes, break_on}
use langchain_cpp.Base.Dict.{Dict, insert}
use langchain_cpp.Base.Decimal.{to_string}
use langchain_cpp.Base.Json.{Json, is_some}
use langchain_cpp.Base.Outcome.{Outcome, ok, throws, ◌>>=◌}
use langchain_cpp.Base.Exec.{Exec}
use langchain_cpp.Base.Http.{Response}
use langchain_cpp.Mcp.JsonRpc.{JsonRpcResponse, result, error_message, parse_response}
use langchain_cpp.Mcp.Client.{ClientTransport}
use langchain_cpp.Mcp.Sse.{extract_last_sse_event_data}

pub record HttpClientTransportConfig : Type 0 where
  pub url : Text
  pub protocol_version : Text

-- The transport's session id, and the network.
pub record HttpState (W : Type 0) : Type 0 where
  pub session_id : Text
  pub network : W

unfoldable pub build_headers : HttpClientTransportConfig → Text → Dict Text
build_headers config session_id =
    let headers =
      (codes "Content-Type", codes "application/json")
      ∷ (codes "Accept", codes "application/json, text/event-stream")
      ∷ (codes "MCP-Protocol-Version", config.protocol_version)
      ∷ [] in
    if not (is_empty session_id)
    then insert (codes "Mcp-Session-Id") session_id headers
    else headers

abbrev pub text_or : Option Text → Text → Text
text_or none d = d
text_or (some t) d = t

module _ (J : Json) where
  open J use {Value, dump, parse}

  unfoldable pub parse_event : Option Text → Outcome Value
  parse_event none = throws (codes "HttpClientTransport: SSE response contained no data event")
  parse_event (some data_text) = parse data_text

  unfoldable pub response_message : Response → Outcome Value
  unfolding parse_event
  response_message response =
      let content_type = text_or (response.header (codes "Content-Type")) [] in
      let event = parse_event (extract_last_sse_event_data response.body) in
      if is_some (break_on (codes "text/event-stream") content_type)
      then event
      else parse response.body

  unfoldable pub parsed_outcome : JsonRpcResponse Value → Outcome Value
  parsed_outcome (result v) = ok v
  parsed_outcome (error_message e) = throws (codes "HttpClientTransport: request failed: " ++ e)

  abbrev pub failed : Text → Response → Text
  failed what response =
      codes "HttpClientTransport: "
      ++ (what
          ++ (codes " failed (HTTP "
              ++ (to_string response.status_code ++ (codes "): " ++ response.body))))

  unfoldable pub response_outcome : Response → Outcome Value
  unfolding response_message parsed_outcome
  response_outcome response =
      if response.status_code == 200
      then response_message response >>= parse_response J >>= parsed_outcome
      else throws (failed (codes "request") response)

  module _ {W : Type 0} (post : Dict Text → Text → W → Response × W)
      (config : HttpClientTransportConfig) where
    -- HttpClientTransport::send_request
    unfoldable pub send_request : Value → Exec (HttpState W) Value
    unfolding response_outcome
    send_request request s =
        let (response, w) = post (build_headers config s.session_id) (dump request) s.network in
        (
          response_outcome response,
          record {
            session_id = text_or (response.header (codes "Mcp-Session-Id")) s.session_id;
            network = w;
          },
        )

    unfoldable pub send_notification : Value → Exec (HttpState W) (Unit {0})
    send_notification notification s =
        let (response, w) =
          post (build_headers config s.session_id) (dump notification) s.network in
        (
          (if response.status_code == 202
              then ok tt
              else throws (failed (codes "notification") response)),
          record s { network = w },
        )

    abbrev pub http_client_transport : ClientTransport Value (HttpState W)
    http_client_transport = record {
      send_request = send_request;
      send_notification = send_notification;
    }
