-- ===== src/Mcp/Protocol.antt =====
-- src/mcp/mcp_protocol.hpp and src/mcp/mcp_protocol.cpp: the shapes of MCP's messages. McpToolInfo
-- is of include/langchain/mcp/mcp_client.hpp.
pub mod RoundTrip
use langchain_cpp.Base.{
  ℕ, Bool, true, false, List, [], ◌∷◌, map, not, ◌&&◌, ◌==◌, none, some, if◌then◌else◌,
}
use langchain_cpp.Base.Text.{Text, codes, text_eq}
use langchain_cpp.Base.Json.{Json, at, value, value_string, value_boolean, get_string, front}
use langchain_cpp.Base.Outcome.{Outcome, ok, throws, ◌>>=◌, traverse}
use langchain_cpp.Tools.Tool.{Result, success, failure, Tool}

pub record McpToolInfo (V : Type 0) : Type 0 where
  pub name : Text
  pub description : Text
  pub input_schema : V

module _ (J : Json) where
  open J use {Value, object, array, string, elements, size, as_string, dump}

  unfoldable pub build_initialize_params : Value
  build_initialize_params = object (
      (codes "protocolVersion", string (codes "2024-11-05"))
      ∷ (codes "capabilities", object [])
      ∷ (
        codes "clientInfo",
        object (
            (codes "name", string (codes "langchain-cpp"))
            ∷ (codes "version", string (codes "0.17.0"))
            ∷ []),
      )
      ∷ [])

  unfoldable pub parse_tool : Value → Outcome (McpToolInfo Value)
  parse_tool tool_json = do
    name ← at J (codes "name") tool_json >>= get_string J
    description ← value_string J (codes "description") tool_json []
    input_schema ←
        value J (codes "inputSchema") tool_json
          (object ((codes "type", string (codes "object")) ∷ []))
    ok (record { name = name; description = description; input_schema = input_schema })

  unfoldable pub parse_tools_list_result : Value → Outcome (List (McpToolInfo Value))
  unfolding parse_tool
  parse_tools_list_result result = do
    tools ← value J (codes "tools") result (array [])
    traverse parse_tool (elements tools)

  -- content[0].value("type", "") == "text"
  unfoldable pub starts_with_text : Value → Outcome Bool
  starts_with_text content = do
    block ← front J content
    type_name ← value_string J (codes "type") block []
    ok (text_eq type_name (codes "text"))

  -- content[0].value("text", default)
  unfoldable pub first_text : Value → Text → Outcome Text
  first_text content default = do
    block ← front J content
    value_string J (codes "text") block default

  abbrev failed_text : Text
  failed_text = codes "MCP tool call failed"

  -- The message of a failed call.
  unfoldable pub error_text : Value → Outcome Text
  unfolding starts_with_text first_text
  error_text content =
      let is_text = if size content == 0 then ok false else starts_with_text content in
      is_text >>= λ t. if t then first_text content failed_text else ok failed_text

  -- The value of a call that went well.
  unfoldable pub content_value : Value → Outcome Value
  unfolding starts_with_text first_text
  content_value content =
      let is_text = if size content == 1 then starts_with_text content else ok false in
      let lone = first_text content [] >>= (λ text. ok (string text)) in
      is_text >>= λ t. if t then lone else ok content

  abbrev pub call_outcome : Bool → Value → Outcome Value
  call_outcome true content = error_text content >>= λ message. throws message
  call_outcome false content = content_value content

  unfoldable pub parse_call_tool_result : Value → Outcome Value
  unfolding error_text content_value
  parse_call_tool_result result = do
    content ← value J (codes "content") result (array [])
    is_error ← value_boolean J (codes "isError") result false
    call_outcome is_error content

  unfoldable pub build_initialize_result : Value
  build_initialize_result = object (
      (codes "protocolVersion", string (codes "2024-11-05"))
      ∷ (codes "capabilities", object ((codes "tools", object []) ∷ []))
      ∷ (
        codes "serverInfo",
        object (
            (codes "name", string (codes "langchain-cpp"))
            ∷ (codes "version", string (codes "0.17.0"))
            ∷ []),
      )
      ∷ [])

  module _ {W : Type 0} where
    unfoldable pub tool_entry : Tool Value W → Value
    tool_entry t = object (
        (codes "name", string t.name)
        ∷ (codes "description", string t.description)
        ∷ (codes "inputSchema", t.parameters_schema)
        ∷ [])

    unfoldable pub build_tools_list_result : List (Tool Value W) → Value
    unfolding tool_entry
    build_tools_list_result tools = object ((codes "tools", array (map tool_entry tools)) ∷ [])

  unfoldable pub text_block : Text → Value
  text_block text =
      array (object ((codes "type", string (codes "text")) ∷ (codes "text", string text) ∷ []) ∷ [])

  -- The text of a value: a string as it is, anything else dumped.
  unfoldable pub value_text : Value → Text
  value_text v = elim (as_string v) [ none ↦ dump v | some s ↦ s ]

  unfoldable pub build_call_tool_result : Result Value → Value
  unfolding text_block value_text
  build_call_tool_result (failure message) =
      object ((codes "isError", J.boolean true) ∷ (codes "content", text_block message) ∷ [])
  build_call_tool_result (success v) = object ((codes "content", text_block (value_text v)) ∷ [])
