-- ===== src/Providers/Anthropic.antt =====
-- src/providers/anthropic/anthropic_wire_format.cpp and src/providers/anthropic/anthropic_chat.cpp,
-- over a parameter for cpr::Post. A temperature is the JSON number that holds the double.
pub mod RoundTrip
use langchain_cpp.Base.{
  Bool, true, false, not, List, [], ◌∷◌, ◌++◌, map, Option, none, some, ◌==◌, if◌then◌else◌,
  is_empty,
}
use langchain_cpp.Base.Text.{Text, codes, text_eq}
use langchain_cpp.Base.Dict.{Dict}
use langchain_cpp.Base.Http.{Response, Send}
use langchain_cpp.Base.Join.{append_part}
use langchain_cpp.Base.Json.{Json, Integer, at, value, value_string, get_string}
use langchain_cpp.Base.Outcome.{Outcome, ok, throws, ◌>>=◌}
use langchain_cpp.Base.Exec.{Exec}
use langchain_cpp.Core.Message.{
  MessageRole, system, user, assistant, tool, to_api_role, ToolCall, Message, assistant_message,
  assistant_tool_calls,
}
use langchain_cpp.Llm.ChatModel.{ChatModel, default_stream}
use langchain_cpp.Tools.Registry.{ToolRegistry, to_anthropic_tools_json}
use langchain_cpp.Providers.Config.{resolve_from, failed_request, tools_member}
use langchain_cpp.Providers.OpenAi.{is_tool}

pub record AnthropicConfig (V : Type 0) : Type 0 where
  pub model : Text
  pub api_key : Text
  pub base_url : Text
  pub api_version : Text
  pub max_tokens : Integer
  pub temperature : V

pub record AnthropicChat (V W : Type 0) : Type 0 where
  pub config : AnthropicConfig V
  pub tools : Option (ToolRegistry V W)

abbrev pub is_system : MessageRole → Bool
is_system system = true
is_system user = false
is_system assistant = false
is_system tool = false

-- `env` is what getenv finds.
abbrev pub resolve_api_key : Option Text → Text → Outcome Text
resolve_api_key env =
    resolve_from env (codes "AnthropicChat: no api_key provided and ANTHROPIC_API_KEY is not set")

-- The constructor.
abbrev pub anthropic_chat :
    {V W : Type 0} → Option Text → AnthropicConfig V → Outcome (AnthropicChat V W)
anthropic_chat env config = resolve_api_key env config.api_key >>= λ key.
    ok (record { config = record config { api_key = key }; tools = none })

abbrev pub bind_tools : {V W : Type 0} → AnthropicChat V W → ToolRegistry V W → AnthropicChat V W
bind_tools chat registry = record chat { tools = some registry }

-- The locals of the loop over the blocks.
pub record Blocks (V : Type 0) : Type 0 where
  pub text : Text
  pub calls : List (ToolCall V)

module _ (J : Json) where
  open J use {Value, array, object, string, integer, elements, dump, parse}

  unfoldable pub tool_result_message : Message Value → Value
  tool_result_message m = object (
      (codes "role", string (codes "user"))
      ∷ (
        codes "content",
        array (
            object (
              (codes "type", string (codes "tool_result"))
              ∷ (codes "tool_use_id", string m.tool_call_id)
              ∷ (codes "content", string m.content)
              ∷ [])
            ∷ []),
      )
      ∷ [])

  unfoldable pub text_block : Text → List Value
  text_block content =
      if not (is_empty content)
      then object ((codes "type", string (codes "text")) ∷ (codes "text", string content) ∷ []) ∷ []
      else []

  unfoldable pub tool_use_block : ToolCall Value → Value
  tool_use_block call = object (
      (codes "type", string (codes "tool_use"))
      ∷ (codes "id", string call.id)
      ∷ (codes "name", string call.tool_name)
      ∷ (codes "input", call.arguments)
      ∷ [])

  unfoldable pub message_to_anthropic_json : Message Value → Outcome Value
  unfolding tool_result_message text_block tool_use_block
  message_to_anthropic_json m =
      if not (is_empty m.images)
      then throws (
          codes "AnthropicChat: image content is not yet supported by this provider implementation")
      else if is_tool J m.role
      then ok (tool_result_message m)
      else if not (is_empty m.tool_calls)
      then ok (
          object (
            (codes "role", string (to_api_role m.role))
            ∷ (codes "content", array (text_block m.content ++ map tool_use_block m.tool_calls))
            ∷ []))
      else ok (
          object (
            (codes "role", string (to_api_role m.role)) ∷ (codes "content", string m.content) ∷ []))

  -- The loop over the blocks, with the text and the calls so far.
  unfoldable pub parse_tool_use : Value → Outcome (ToolCall Value)
  parse_tool_use block = do
    id ← at J (codes "id") block >>= get_string J
    name ← at J (codes "name") block >>= get_string J
    arguments ← value J (codes "input") block (object [])
    ok (record { id = id; tool_name = name; arguments = arguments })

  unfoldable pub parse_block : Value → Blocks Value → Outcome (Blocks Value)
  unfolding parse_tool_use
  parse_block block b = value_string J (codes "type") block [] >>= λ type.
      if text_eq type (codes "text")
      then (value_string J (codes "text") block [] >>= λ more.
          ok (record b { text = b.text ++ more }))
      else if text_eq type (codes "tool_use")
      then (parse_tool_use block >>= λ call. ok (record b { calls = b.calls ++ call ∷ [] }))
      else ok b

  unfoldable pub parse_blocks : List Value → Blocks Value → Outcome (Blocks Value)
  unfolding parse_block
  parse_blocks [] b = ok b
  parse_blocks (block ∷ blocks) b = parse_block block b >>= parse_blocks blocks

  unfoldable pub parse_anthropic_message : Value → Outcome (Message Value)
  unfolding parse_blocks
  parse_anthropic_message parsed = do
    content ← at J (codes "content") parsed
    b ← parse_blocks (elements content) (record { text = []; calls = [] })
    ok (
        if not (is_empty b.calls)
        then assistant_tool_calls b.calls b.text
        else assistant_message b.text)

  -- The loop over the messages, with system_prompt and payload_messages.
  unfoldable pub payload : List (Message Value) → Text → List Value → Outcome (Text × List Value)
  unfolding message_to_anthropic_json
  payload [] system_prompt messages = ok (system_prompt, messages)
  payload (m ∷ ms) system_prompt messages =
      let next = payload ms (append_part (codes "\n") system_prompt m.content) messages in
      if is_system m.role
      then next
      else (message_to_anthropic_json m >>= λ v. payload ms system_prompt (messages ++ v ∷ []))

  abbrev pub system_member : Text → Dict Value
  system_member system_prompt =
      if not (is_empty system_prompt) then (codes "system", string system_prompt) ∷ [] else []

  unfoldable pub request_body : {W : Type 0} → AnthropicChat Value W → Text → List Value → Value
  request_body chat system_prompt messages = object (
      (codes "model", string chat.config.model)
      ∷ (codes "messages", array messages)
      ∷ (codes "max_tokens", integer chat.config.max_tokens)
      ∷ (codes "temperature", chat.config.temperature)
      ∷ (system_member system_prompt ++ tools_member J chat.tools (to_anthropic_tools_json J)))

  unfoldable pub reply : Response → Outcome (Message Value)
  reply response =
      if not (response.status_code == 200)
      then throws (failed_request (codes "AnthropicChat: request") response)
      else (parse response.body >>= parse_anthropic_message)

  module _ {W : Type 0} (post : Send W) (chat : AnthropicChat Value W) where
    unfoldable pub send : Outcome (Text × List Value) → Exec W (Message Value)
    unfolding reply request_body
    send (throws e) w = (throws e, w)
    send (ok (system_prompt, messages)) w =
        let (response, w') =
          post (chat.config.base_url ++ codes "/messages")
            ((codes "x-api-key", chat.config.api_key)
              ∷ (codes "anthropic-version", chat.config.api_version)
              ∷ (codes "Content-Type", codes "application/json")
              ∷ [])
            (dump (request_body chat system_prompt messages)) w in
        (reply response, w')

    -- AnthropicChat::invoke
    unfoldable pub invoke : List (Message Value) → Exec W (Message Value)
    unfolding payload send
    invoke messages = send (payload messages [] [])

    abbrev pub chat_model : ChatModel Value W
    chat_model = record {
      model_name = chat.config.model;
      invoke = invoke;
      stream = default_stream invoke;
    }
