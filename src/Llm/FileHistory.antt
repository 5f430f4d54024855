-- ===== src/Llm/FileHistory.antt =====
-- include/langchain/llm/file_chat_message_history.hpp and src/llm/file_chat_message_history.cpp. The
-- file at the history's path is its path, its text, `none` where there is no file, and whether
-- it can be opened for writing.
pub mod Reload
use langchain_cpp.Base.{
  Bool, true, false, List, [], ◌∷◌, ◌++◌, Option, none, some, map, if◌then◌else◌,
}
use langchain_cpp.Base.Text.{Text, codes, text_eq}
use langchain_cpp.Base.Json.{Json, at, value, value_string, get_string}
use langchain_cpp.Base.Outcome.{Outcome, ok, throws, ◌>>=◌, traverse}
use langchain_cpp.Core.Message.{
  MessageRole, system, user, assistant, tool, to_api_role, ToolCall, ImageSourceType, url, base64,
  ImageContent, Message,
}

pub record File : Type 0 where
  pub path : Text
  pub text : Option Text
  pub writable : Bool

pub parse_role : Text → Outcome MessageRole
parse_role role =
    if text_eq role (codes "system")
    then ok system
    else if text_eq role (codes "user")
    then ok user
    else if text_eq role (codes "assistant")
    then ok assistant
    else if text_eq role (codes "tool")
    then ok tool
    else throws (codes "FileChatMessageHistory: unknown role in file: " ++ role)

abbrev source_type_text : ImageSourceType → Text
source_type_text base64 = codes "base64"
source_type_text url = codes "url"

module _ (J : Json) where
  open J use {Value, array, object, string, elements, dump_indented, extract}

  call_to_json : ToolCall Value → Value
  call_to_json call = object (
      (codes "id", string call.id)
      ∷ (codes "name", string call.tool_name)
      ∷ (codes "arguments", call.arguments)
      ∷ [])

  image_to_json : ImageContent → Value
  image_to_json image = object (
      (codes "source_type", string (source_type_text image.source_type))
      ∷ (codes "data", string image.image_data)
      ∷ (codes "media_type", string image.media_type)
      ∷ [])

  pub message_to_json : Message Value → Value
  unfolding call_to_json image_to_json
  message_to_json m = object (
      (codes "role", string (to_api_role m.role))
      ∷ (codes "content", string m.content)
      ∷ (codes "tool_calls", array (map call_to_json m.tool_calls))
      ∷ (codes "tool_call_id", string m.tool_call_id)
      ∷ (codes "images", array (map image_to_json m.images))
      ∷ [])

  call_from_json : Value → Outcome (ToolCall Value)
  call_from_json v = do
    id ← at J (codes "id") v >>= get_string J
    name ← at J (codes "name") v >>= get_string J
    arguments ← value J (codes "arguments") v (object [])
    ok (record { id = id; tool_name = name; arguments = arguments })

  image_from_json : Value → Outcome ImageContent
  image_from_json v = do
    source_type ← value_string J (codes "source_type") v (codes "url")
    bytes ← value_string J (codes "data") v []
    media_type ← value_string J (codes "media_type") v []
    ok (record {
      source_type = if text_eq source_type (codes "base64") then base64 else url;
      image_data = bytes;
      media_type = media_type;
    })

  pub message_from_json : Value → Outcome (Message Value)
  unfolding call_from_json image_from_json parse_role
  message_from_json entry = do
    role_text ← at J (codes "role") entry >>= get_string J
    role ← parse_role role_text
    content ← value_string J (codes "content") entry []
    tool_call_id ← value_string J (codes "tool_call_id") entry []
    calls ← value J (codes "tool_calls") entry (array [])
    tool_calls ← traverse call_from_json (elements calls)
    image_values ← value J (codes "images") entry (array [])
    images ← traverse image_from_json (elements image_values)
    ok (record {
      role = role;
      content = content;
      tool_calls = tool_calls;
      tool_call_id = tool_call_id;
      images = images;
    })

  -- FileChatMessageHistory::load, which the constructor calls
  unfoldable pub load : File → Outcome (List (Message Value))
  load file = elim file.text [
    | none ↦ ok []
    | some text ↦ extract text >>= λ parsed. traverse message_from_json (elements parsed)
  ]

  -- FileChatMessageHistory::save
  pub save : List (Message Value) → File → Outcome (Unit {0}) × File
  save messages file =
      if file.writable
      then (
        ok tt,
        record file { text = some (dump_indented 2 (array (map message_to_json messages))) },
      )
      else (throws (codes "FileChatMessageHistory: could not write to " ++ file.path), file)

  -- The object with its file.
  pub record FileChatMessageHistory : Type 0 where
    pub messages : List (Message Value)
    pub file : File

  -- FileChatMessageHistory::FileChatMessageHistory
  unfoldable pub open_history : File → Outcome FileChatMessageHistory
  unfolding load
  open_history file = do messages ← load file; ok (record { messages = messages; file = file })

  saved : List (Message Value) → File → Outcome (Unit {0}) × FileChatMessageHistory
  saved messages file =
      let (r, file') = save messages file in (r, record { messages = messages; file = file' })

  -- The message stays in memory where the file cannot be written.
  pub add_message :
      Message Value → FileChatMessageHistory → Outcome (Unit {0}) × FileChatMessageHistory
  unfolding saved save
  add_message message h = saved (h.messages ++ message ∷ []) h.file

  pub clear : FileChatMessageHistory → Outcome (Unit {0}) × FileChatMessageHistory
  unfolding saved save
  clear h = saved [] h.file
