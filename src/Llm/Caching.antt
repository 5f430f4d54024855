-- ===== src/Llm/Caching.antt =====
-- include/langchain/llm/chat_model_cache.hpp, in_memory_chat_model_cache.hpp and
-- caching_chat_model.hpp, with their sources under src/llm.
pub mod Key
pub mod Replay
use langchain_cpp.Base.{
  ℕ, Bool, true, false, List, [], ◌∷◌, ◌++◌, Option, none, some, map, if◌then◌else◌, ◌==◌,
}
use langchain_cpp.Base.Text.{Text, codes}
use langchain_cpp.Base.Dict.{Dict, lookup, insert}
use langchain_cpp.Base.Json.{Json, Integer, natural}
use langchain_cpp.Base.Outcome.{Outcome, ok, throws}
use langchain_cpp.Base.Exec.{Exec, pure, continue, ◌>>=◌, ◌>>◌}
use langchain_cpp.Core.Message.{
  Message, MessageRole, system, user, assistant, tool, ToolCall, ImageContent, plain,
}
use langchain_cpp.Llm.ChatModel.{ChatModel, StreamChunk, StreamCallback, final_chunk}
use langchain_cpp.Tools.Registry.{ToolRegistry, to_openai_tools_json}

-- The virtual functions of ChatModelCache, over a world that holds the cache.
pub record ChatModelCache (V W : Type 0) : Type 0 where
  pub get : Text → Exec W (Option (Message V))
  pub put : Text → Message V → Exec W (Unit {0})

-- The world of an InMemoryChatModelCache: its entries, and what the model changes.
pub record InMemory (V M : Type 0) : Type 0 where
  pub entries : Dict (Message V)
  pub rest : M

abbrev pub in_memory_cache : {V M : Type 0} → ChatModelCache V (InMemory V M)
in_memory_cache = record {
  get = λ key w. (ok (lookup key w.entries), w);
  put = λ key value w. (ok tt, record w { entries = insert key value w.entries });
}

pub record CachingChatModel (V W : Type 0) : Type 0 where
  pub inner : ChatModel V W
  pub cache : ChatModelCache V W
  pub tools_signature : Text

-- static_cast<int>(role)
abbrev pub role_number : MessageRole → ℕ
role_number system = 0
role_number user = 1
role_number assistant = 2
role_number tool = 3

module _ (J : Json) where
  open J use {Value, array, object, string, integer, dump}

  unfoldable pub cache_call : ToolCall Value → Value
  cache_call call = object (
      (codes "id", string call.id)
      ∷ (codes "name", string call.tool_name)
      ∷ (codes "arguments", call.arguments)
      ∷ [])

  unfoldable pub cache_image : ImageContent → Value
  cache_image image =
      object (
        (codes "data", string image.image_data)
        ∷ (codes "media_type", string image.media_type)
        ∷ [])

  unfoldable pub message_to_cache_json : Message Value → Value
  unfolding cache_call cache_image
  message_to_cache_json m = object (
      (codes "role", integer (natural (role_number m.role)))
      ∷ (codes "content", string m.content)
      ∷ (codes "tool_call_id", string m.tool_call_id)
      ∷ (codes "tool_calls", array (map cache_call m.tool_calls))
      ∷ (codes "images", array (map cache_image m.images))
      ∷ [])

  -- CachingChatModel::make_cache_key, on the model's name and the bound tools' signature
  unfoldable pub make_cache_key : Text → Text → List (Message Value) → Text
  make_cache_key model_name tools_signature messages =
      dump (array (string model_name ∷ string tools_signature ∷ map message_to_cache_json messages))

  module _ {W : Type 0} where
    abbrev pub key_of : CachingChatModel Value W → List (Message Value) → Text
    key_of c messages = make_cache_key c.inner.model_name c.tools_signature messages

    abbrev answer_or :
        CachingChatModel Value W
        → Text
        → List (Message Value)
        → Option (Message Value)
        → Exec W (Message Value)
    answer_or c key messages (some cached) = pure cached
    answer_or c key messages none = do
      result ← c.inner.invoke messages
      c.cache.put key result
      pure result

    -- CachingChatModel::invoke
    pub invoke : CachingChatModel Value W → List (Message Value) → Exec W (Message Value)
    invoke c messages = do
      cached ← c.cache.get (key_of c messages)
      answer_or c (key_of c messages) messages cached

    -- CachingChatModel::bind_tools, on the inner model with the tools bound
    pub bind_tools :
        CachingChatModel Value W
        → ChatModel Value W
        → ToolRegistry Value W
        → CachingChatModel Value W
    bind_tools c bound registry = record {
      inner = bound;
      cache = c.cache;
      tools_signature = dump (to_openai_tools_json J registry);
    }

-- The callback that CachingChatModel::stream hands to the inner model: it keeps the message of a
-- final chunk, and hands every chunk on. The local `assembled` stands beside the world.
unfoldable pub stream_callback :
    {V W : Type 0} → StreamCallback V W → StreamCallback V (Message V × W)
stream_callback on_chunk chunk (assembled, w) =
    let (r, w') = on_chunk chunk w in (r, (if chunk.is_final then chunk.message else assembled, w'))

module _ (J : Json) {W : Type 0} (unset : Message J.Value) where
  open J use {Value}

  -- CachingChatModel::stream. `inner_stream` is the inner model's stream, run in the world with
  -- `assembled` beside it; `unset` is what that local holds before a final chunk comes.
  pub stream :
      CachingChatModel Value W
      → (List (Message Value)
          → StreamCallback Value (Message Value × W)
          → Exec (Message Value × W) (Unit {0}))
      → List (Message Value)
      → StreamCallback Value W
      → Exec W (Unit {0})
  stream c inner_stream messages on_chunk = do
    let key = key_of J c messages
    cached ← c.cache.get key
    elim cached [
      | some reply ↦ on_chunk (final_chunk reply)
      | none ↦ λ w.
          let (r, (assembled, w')) = inner_stream messages (stream_callback on_chunk) (unset, w) in
          continue r (λ _. c.cache.put key assembled) w'
    ]
