-- ===== src/Llm/ChatModel.antt =====
-- include/langchain/llm/chat_model.hpp. A chat model is its operations, calls over a world `W` that
-- may throw; a provider's model is a parameter. `bind_tools` returns another model: it is a
-- function of its own where a wrapper defines it.
use langchain_cpp.Base.{Bool, true, false, List, [], ◌∷◌}
use langchain_cpp.Base.Text.{Text}
use langchain_cpp.Base.Exec.{Exec, pure, ◌>>=◌}
use langchain_cpp.Core.Message.{Message, plain, system}

pub record StreamChunk (V : Type 0) : Type 0 where
  pub delta : Text
  pub is_final : Bool
  pub message : Message V

abbrev pub StreamCallback : Type 0 → Type 0 → Type 0
StreamCallback V W = StreamChunk V → Exec W (Unit {0})

pub record ChatModel (V W : Type 0) : Type 0 where
  pub model_name : Text
  pub invoke : List (Message V) → Exec W (Message V)
  pub stream : List (Message V) → StreamCallback V W → Exec W (Unit {0})

abbrev pub final_chunk : {V : Type 0} → Message V → StreamChunk V
final_chunk result = record { delta = result.content; is_final = true; message = result }

-- ChatModel::stream, for a model that does not override it
unfoldable pub default_stream :
    {V W : Type 0}
    → (List (Message V) → Exec W (Message V))
    → List (Message V)
    → StreamCallback V W
    → Exec W (Unit {0})
default_stream invoke messages on_chunk = do result ← invoke messages; on_chunk (final_chunk result)

-- StreamChunk{delta, false, {}}
abbrev pub delta_chunk : {V : Type 0} → Text → StreamChunk V
delta_chunk piece = record { delta = piece; is_final = false; message = plain system [] }

-- A stream that delivers the chunks, in order, until the callback throws.
unfoldable pub deliver :
    {V W : Type 0} → List (StreamChunk V) → StreamCallback V W → Exec W (Unit {0})
deliver [] on_chunk = pure tt
deliver (chunk ∷ chunks) on_chunk = on_chunk chunk >>= λ _. deliver chunks on_chunk
