-- ===== src/Mcp/Client.antt =====
-- src/mcp/client_transport.hpp, include/langchain/mcp/mcp_client.hpp, src/mcp/mcp_client.cpp and
-- src/mcp/mcp_tools.cpp. The client's state is the next id; a transport changes the world `W`. An id
-- is a natural number, and the run is shorter than 2^31 requests.
pub mod Served
use langchain_cpp.Base.{ℕ, suc, List, [], ◌∷◌, map}
use langchain_cpp.Base.Text.{Text, codes}
use langchain_cpp.Base.Json.{Json, Integer, natural}
use langchain_cpp.Base.Outcome.{Outcome, ok, throws, ◌>>=◌}
use langchain_cpp.Base.Exec.{Exec, lift}
use langchain_cpp.Tools.Tool.{Tool, function_tool}
use langchain_cpp.Mcp.JsonRpc.{build_request, build_notification}
use langchain_cpp.Mcp.Protocol.{
  McpToolInfo, build_initialize_params, parse_tools_list_result, parse_call_tool_result,
}

pub record ClientTransport (V W : Type 0) : Type 0 where
  pub send_request : V → Exec W V
  pub send_notification : V → Exec W (Unit {0})

-- The client's id counter with the world.
pub record ClientState (W : Type 0) : Type 0 where
  pub next_id : ℕ
  pub world : W

module _ (J : Json) {W : Type 0} (t : ClientTransport J.Value W) where
  open J use {Value, object, string}

  -- McpClient::send_request
  unfoldable pub send_request : Text → Value → Exec (ClientState W) Value
  send_request method params s =
      let (r, w) = t.send_request (build_request J (natural s.next_id) method params) s.world in
      (r, record { next_id = suc s.next_id; world = w })

  unfoldable pub send_notification : Text → Value → Exec (ClientState W) (Unit {0})
  send_notification method params s =
      let (r, w) = t.send_notification (build_notification J method params) s.world in
      (r, record s { world = w })

  abbrev initialized : Outcome Value → Exec (ClientState W) (Unit {0})
  initialized (ok v) s = send_notification (codes "notifications/initialized") (object []) s
  initialized (throws e) s = (throws e, s)

  unfoldable pub initialize : Exec (ClientState W) (Unit {0})
  unfolding send_request send_notification
  initialize s =
      let (r, s') = send_request (codes "initialize") (build_initialize_params J) s in
      initialized r s'

  unfoldable pub list_tools : Exec (ClientState W) (List (McpToolInfo Value))
  unfolding send_request
  list_tools s =
      let (r, s') = send_request (codes "tools/list") (object []) s in
      (r >>= parse_tools_list_result J, s')

  unfoldable pub call_tool : Text → Value → Exec (ClientState W) Value
  unfolding send_request
  call_tool name arguments s =
      let (r, s') =
        send_request (codes "tools/call")
          (object ((codes "name", string name) ∷ (codes "arguments", arguments) ∷ [])) s in
      (r >>= parse_call_tool_result J, s')

  -- The tool that as_tools makes of an entry.
  unfoldable pub as_tool : McpToolInfo Value → Tool Value (ClientState W)
  unfolding call_tool
  as_tool info = function_tool info.name info.description (call_tool info.name) info.input_schema

  unfoldable pub as_tools : Exec (ClientState W) (List (Tool Value (ClientState W)))
  unfolding list_tools as_tool
  as_tools s = let (r, s') = list_tools s in (r >>= (λ infos. ok (map as_tool infos)), s')
