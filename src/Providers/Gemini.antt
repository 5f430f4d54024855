-- ===== src/Providers/Gemini.antt =====
-- src/providers/google/gemini_wire_format.cpp: the request's messages, and reading a response.
pub mod Chat
pub mod Correlation
use langchain_cpp.Base.{
  ℕ, suc, Bool, true, false, not, ◌&&◌, ◌||◌, List, [], ◌∷◌, ◌++◌, map, Option, none, some, ◌==◌,
  if◌then◌else◌, is_empty,
}
use langchain_cpp.Base.Text.{Text, codes, text_eq}
use langchain_cpp.Base.Decimal.{to_string}
use langchain_cpp.Base.Dict.{Dict, lookup, insert}
use langchain_cpp.Base.Http.{Response, Send}
use langchain_cpp.Base.Join.{append_part}
use langchain_cpp.Base.Json.{Json, Integer, at, value, front, contains, get_string}
use langchain_cpp.Base.Outcome.{Outcome, ok, throws, ◌>>=◌}
use langchain_cpp.Base.Exec.{Exec}
use langchain_cpp.Core.Message.{
  MessageRole, system, user, assistant, tool, ToolCall, Message, assistant_message,
  assistant_tool_calls,
}
use langchain_cpp.Llm.ChatModel.{ChatModel, default_stream}
use langchain_cpp.Tools.Registry.{ToolRegistry, to_gemini_tools_json}
use langchain_cpp.Providers.Config.{resolve_from, failed_request, tools_member, integer_member}

-- `contents` is the request's array.
pub record GeminiRequest (V : Type 0) : Type 0 where
  pub system_instruction : Text
  pub contents : List V

-- The locals of the loop over a response's parts.
pub record Parts (V : Type 0) : Type 0 where
  pub text : Text
  pub calls : List (ToolCall V)
  pub next_id : ℕ

abbrev pub name_or_id : Option Text → Text → Text
name_or_id none id = id
name_or_id (some name) id = name

-- call_id_to_name, after an assistant's calls
unfoldable pub add_names : {V : Type 0} → List (ToolCall V) → Dict Text → Dict Text
add_names [] names = names
add_names (call ∷ calls) names = add_names calls (insert call.id call.tool_name names)

module _ (J : Json) where
  open J use {Value, null, array, object, string, elements, size, dump, parse}

  -- Of what parse throws, only a parse_error is caught.
  abbrev pub parsed_or_string : Text → Outcome Value → Outcome Value
  parsed_or_string content (ok v) = ok v
  parsed_or_string content (throws e) = if J.is_parse_error e then ok (string content) else throws e

  unfoldable pub function_response : Text → Value → Value
  function_response name result_value = object (
      (codes "role", string (codes "function"))
      ∷ (
        codes "parts",
        array (
            object (
              (
                codes "functionResponse",
                object (
                    (codes "name", string name)
                    ∷ (codes "response", object ((codes "result", result_value) ∷ []))
                    ∷ []),
              )
              ∷ [])
            ∷ []),
      )
      ∷ [])

  unfoldable pub text_part : Text → Value
  text_part content = object ((codes "text", string content) ∷ [])

  unfoldable pub function_call_part : ToolCall Value → Value
  function_call_part call = object (
      (
        codes "functionCall",
        object ((codes "name", string call.tool_name) ∷ (codes "args", call.arguments) ∷ []),
      )
      ∷ [])

  unfoldable pub calls_parts : Message Value → List Value
  unfolding text_part function_call_part
  calls_parts m =
      let calls = map function_call_part m.tool_calls in
      if not (is_empty m.content) then text_part m.content ∷ calls else calls

  abbrev pub with_parts : Text → List Value → Value
  with_parts role parts = object ((codes "role", string role) ∷ (codes "parts", array parts) ∷ [])

  abbrev pub text_role : MessageRole → Text
  text_role assistant = codes "model"
  text_role system = codes "user"
  text_role user = codes "user"
  text_role tool = codes "user"

  abbrev pub add_content : Value → GeminiRequest Value → GeminiRequest Value
  add_content v request = record request { contents = request.contents ++ v ∷ [] }

  -- An assistant's or a user's message.
  unfoldable pub message_content : Message Value → Value
  unfolding calls_parts text_part
  message_content m =
      if not (is_empty m.tool_calls)
      then with_parts (codes "model") (calls_parts m)
      else with_parts (text_role m.role) (text_part m.content ∷ [])

  -- What a message adds to the request, with the names so far.
  unfoldable pub add_message :
      MessageRole → Message Value → Dict Text → GeminiRequest Value → Outcome (GeminiRequest Value)
  unfolding function_response message_content
  add_message system m names request = ok (record request {
    system_instruction = append_part (codes "\n") request.system_instruction m.content;
  })
  add_message tool m names request =
      parsed_or_string m.content (parse m.content) >>= λ result_value. ok (
        add_content
          (function_response (name_or_id (lookup m.tool_call_id names) m.tool_call_id) result_value)
          request)
  add_message user m names request = ok (add_content (message_content m) request)
  add_message assistant m names request = ok (add_content (message_content m) request)

  unfoldable pub names_after : MessageRole → Message Value → Dict Text → Dict Text
  unfolding add_names
  names_after system m names = names
  names_after tool m names = names
  names_after user m names = add_names m.tool_calls names
  names_after assistant m names = add_names m.tool_calls names

  -- The loop over the messages.
  unfoldable pub request_from :
      List (Message Value) → Dict Text → GeminiRequest Value → Outcome (GeminiRequest Value)
  unfolding add_message names_after
  request_from [] names request = ok request
  request_from (m ∷ ms) names request =
      let rest =
        add_message m.role m names request >>= request_from ms (names_after m.role m names) in
      if not (is_empty m.images)
      then throws
          (codes "GeminiChat: image content is not yet supported by this provider implementation")
      else rest

  unfoldable pub messages_to_gemini_request : List (Message Value) → Outcome (GeminiRequest Value)
  unfolding request_from
  messages_to_gemini_request messages =
      request_from messages [] (record { system_instruction = []; contents = [] })

  unfoldable pub parse_call : Text → Value → Outcome (ToolCall Value)
  parse_call id part = do
    function ← at J (codes "functionCall") part
    name ← at J (codes "name") function >>= get_string J
    arguments ← value J (codes "args") function (object [])
    ok (record { id = id; tool_name = name; arguments = arguments })

  unfoldable pub parse_part : Value → Parts Value → Outcome (Parts Value)
  unfolding parse_call
  parse_part part p =
      if contains J (codes "text") part
      then (at J (codes "text") part >>= get_string J >>= λ more.
          ok (record p { text = p.text ++ more }))
      else if contains J (codes "functionCall") part
      then (parse_call (codes "call_" ++ to_string p.next_id) part >>= λ call.
          ok (record p { calls = p.calls ++ call ∷ []; next_id = suc p.next_id }))
      else ok p

  unfoldable pub parse_parts : List Value → Parts Value → Outcome (Parts Value)
  unfolding parse_part
  parse_parts [] p = ok p
  parse_parts (part ∷ parts) p = parse_part part p >>= parse_parts parts

  unfoldable pub message_of : Parts Value → Message Value
  message_of p =
      if not (is_empty p.calls)
      then assistant_tool_calls p.calls p.text
      else assistant_message p.text

  abbrev pub has_candidates : Option Value → Bool
  has_candidates none = false
  has_candidates (some candidates) = not (size candidates == 0)

  unfoldable pub parse_gemini_message : Value → Outcome (Message Value)
  unfolding parse_parts message_of
  parse_gemini_message response_json =
      if not (has_candidates (J.find (codes "candidates") response_json))
      then throws (codes "GeminiChat: response has no candidates: " ++ dump response_json)
      else (at J (codes "candidates") response_json
          >>= front J
          >>= at J (codes "content")
          >>= at J (codes "parts")
          >>= λ parts.
              parse_parts (elements parts) (record { text = []; calls = []; next_id = 0 }) >>= λ p.
              ok (message_of p))
