-- ===== src/Core/Message.antt =====
-- include/langchain/core/message.hpp and src/core/message.cpp: messages, tool calls, images, and
-- reading an image from a file. `V` stands for nlohmann::json, which nothing here looks into.
mod Base64
pub mod RoundTrip
pub mod MediaType
pub use Base64.{base64_encode}
pub use MediaType.{guess_media_type}
use langchain_cpp.Base.{ℕ, Bool, List, [], ◌++◌, Option, none, some, not, if◌then◌else◌, is_empty}
use langchain_cpp.Base.Text.{Text, codes}
use langchain_cpp.Base.Outcome.{Outcome, ok, throws}

pub data MessageRole : Type 0 where
  system user assistant tool : MessageRole

abbrev pub to_api_role : MessageRole → Text
to_api_role system = codes "system"
to_api_role user = codes "user"
to_api_role assistant = codes "assistant"
to_api_role tool = codes "tool"

pub record ToolCall (V : Type 0) : Type 0 where
  pub id : Text
  pub tool_name : Text
  pub arguments : V

pub data ImageSourceType : Type 0 where
  url base64 : ImageSourceType

-- `image_data` is the source's field `data`.
pub record ImageContent : Type 0 where
  pub source_type : ImageSourceType
  pub image_data : Text
  pub media_type : Text

abbrev pub from_url : Text → Text → ImageContent
from_url u media_type = record { source_type = url; image_data = u; media_type = media_type }

pub record Message (V : Type 0) : Type 0 where
  pub role : MessageRole
  pub content : Text
  pub tool_calls : List (ToolCall V)
  pub tool_call_id : Text
  pub images : List ImageContent

module _ {V : Type 0} where
  -- Message{role, content}, the other members at their defaults
  abbrev pub plain : MessageRole → Text → Message V
  plain r content = record {
    role = r;
    content = content;
    tool_calls = [];
    tool_call_id = [];
    images = [];
  }

  abbrev pub system_message : Text → Message V
  system_message = plain system

  abbrev pub user_message : Text → Message V
  user_message = plain user

  abbrev pub assistant_message : Text → Message V
  assistant_message = plain assistant

  abbrev pub user_with_images : Text → List ImageContent → Message V
  user_with_images text images = record (user_message text) { images = images }

  abbrev pub assistant_tool_calls : List (ToolCall V) → Text → Message V
  assistant_tool_calls calls content = record (assistant_message content) { tool_calls = calls }

  abbrev pub tool_result : Text → Text → Message V
  tool_result id content = record (plain tool content) { tool_call_id = id }

  abbrev pub has_tool_calls : Message V → Bool
  has_tool_calls m = not (is_empty m.tool_calls)

  abbrev pub has_images : Message V → Bool
  has_images m = not (is_empty m.images)

abbrev base64_image : List ℕ → Text → ImageContent
base64_image bytes media_type = record {
  source_type = base64;
  image_data = base64_encode bytes;
  media_type = media_type;
}

-- ImageContent::from_file. `file` is what the stream holds, `none` if it does not open.
pub from_file : Text → Option (List ℕ) → Text → Outcome ImageContent
from_file path none media_type = throws (codes "ImageContent::from_file: could not open " ++ path)
from_file path (some bytes) media_type =
    if not (is_empty media_type)
    then ok (base64_image bytes media_type)
    else if is_empty (guess_media_type path)
    then throws (
        codes "ImageContent::from_file: could not guess a media type for "
        ++ (path ++ codes "; pass one explicitly"))
    else ok (base64_image bytes (guess_media_type path))
