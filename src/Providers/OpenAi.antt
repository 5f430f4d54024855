-- ===== src/Providers/OpenAi.antt =====
-- src/providers/openai/openai_wire_format.hpp and src/providers/openai/openai_wire_format.cpp:
-- messages, and the parser of a streamed answer.
pub mod Stream
pub mod Messages
pub mod Chat
pub mod Presets
use langchain_cpp.Base.{
  Bool, true, false, not, ◌&&◌, List, [], ◌∷◌, ◌++◌, map, Option, none, some, if◌then◌else◌,
  is_empty,
}
use langchain_cpp.Base.Text.{Text, codes}
use langchain_cpp.Base.Json.{Json, contains, at, get_string}
use langchain_cpp.Base.Outcome.{Outcome, ok, throws, ◌>>=◌, traverse}
use langchain_cpp.Core.Message.{
  MessageRole, system, user, assistant, tool, to_api_role, ToolCall, ImageSourceType, url, base64,
  ImageContent, Message, assistant_message, assistant_tool_calls,
}

abbrev pub image_url : ImageSourceType → ImageContent → Text
image_url url image = image.image_data
image_url base64 image =
    codes "data:" ++ (image.media_type ++ (codes ";base64," ++ image.image_data))

module _ (J : Json) where
  open J use {Value, array, object, string, null, elements, dump, parse, find, is_null}

  unfoldable pub image_to_openai_json : ImageContent → Value
  image_to_openai_json image = object (
      (codes "type", string (codes "image_url"))
      ∷ (codes "image_url", object ((codes "url", string (image_url image.source_type image)) ∷ []))
      ∷ [])

  abbrev pub content_text : Option Value → Outcome Text
  content_text none = ok []
  content_text (some content) = if is_null content then ok [] else get_string J content

  unfoldable pub content_or_empty : Value → Outcome Text
  content_or_empty message_json = content_text (find (codes "content") message_json)

  unfoldable pub tool_message : Message Value → Value
  tool_message m = object (
      (codes "role", string (codes "tool"))
      ∷ (codes "tool_call_id", string m.tool_call_id)
      ∷ (codes "content", string m.content)
      ∷ [])

  unfoldable pub text_part : Text → List Value
  text_part content =
      if not (is_empty content)
      then object ((codes "type", string (codes "text")) ∷ (codes "text", string content) ∷ []) ∷ []
      else []

  unfoldable pub image_message : Message Value → Value
  unfolding text_part image_to_openai_json
  image_message m = object (
      (codes "role", string (to_api_role m.role))
      ∷ (codes "content", array (text_part m.content ++ map image_to_openai_json m.images))
      ∷ [])

  unfoldable pub call_to_json : ToolCall Value → Value
  call_to_json call = object (
      (codes "id", string call.id)
      ∷ (codes "type", string (codes "function"))
      ∷ (
        codes "function",
        object (
            (codes "name", string call.tool_name)
            ∷ (codes "arguments", string (dump call.arguments))
            ∷ []),
      )
      ∷ [])

  unfoldable pub calls_message : Message Value → Value
  unfolding call_to_json
  calls_message m = object (
      (codes "role", string (to_api_role m.role))
      ∷ (codes "tool_calls", array (map call_to_json m.tool_calls))
      ∷ (codes "content", if is_empty m.content then null else string m.content)
      ∷ [])

  unfoldable pub text_message : Message Value → Value
  text_message m =
      object
        ((codes "role", string (to_api_role m.role)) ∷ (codes "content", string m.content) ∷ [])

  abbrev pub is_tool : MessageRole → Bool
  is_tool tool = true
  is_tool system = false
  is_tool user = false
  is_tool assistant = false

  unfoldable pub message_to_openai_json : Message Value → Value
  unfolding tool_message image_message calls_message text_message
  message_to_openai_json m =
      if is_tool m.role
      then tool_message m
      else if not (is_empty m.images)
      then image_message m
      else if not (is_empty m.tool_calls)
      then calls_message m
      else text_message m

  unfoldable pub parse_call : Value → Outcome (ToolCall Value)
  parse_call tc = do
    id ← at J (codes "id") tc >>= get_string J
    function ← at J (codes "function") tc
    name ← at J (codes "name") function >>= get_string J
    text ← at J (codes "arguments") function >>= get_string J
    arguments ← parse text
    ok (record { id = id; tool_name = name; arguments = arguments })

  unfoldable pub parse_calls : Value → Value → Outcome (Message Value)
  unfolding parse_call content_or_empty
  parse_calls message_json tool_calls = do
    calls ← traverse parse_call (elements tool_calls)
    content ← content_or_empty message_json
    ok (assistant_tool_calls calls content)

  unfoldable pub parse_text : Value → Outcome (Message Value)
  unfolding content_or_empty
  parse_text message_json = do
    content ← content_or_empty message_json
    ok (assistant_message content)

  abbrev pub parse_with : Value → Option Value → Outcome (Message Value)
  parse_with message_json none = parse_text message_json
  parse_with message_json (some tool_calls) =
      if is_null tool_calls then parse_text message_json else parse_calls message_json tool_calls

  unfoldable pub parse_openai_message : Value → Outcome (Message Value)
  unfolding parse_calls parse_text
  parse_openai_message message_json =
      parse_with message_json (find (codes "tool_calls") message_json)
