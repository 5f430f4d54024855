-- ===== src/Llm/History.antt =====
-- include/langchain/llm/chat_message_history.hpp, in_memory_chat_message_history.hpp and
-- chat_model_with_history.hpp, with their sources under src/llm.
pub mod Laws
use langchain_cpp.Base.{List, [], ◌∷◌, ◌++◌}
use langchain_cpp.Base.Outcome.{Outcome, ok, throws}
use langchain_cpp.Base.Exec.{Exec, pure, continue, ◌>>=◌, ◌>>◌}
use langchain_cpp.Core.Message.{Message}
use langchain_cpp.Llm.ChatModel.{ChatModel}

-- The virtual functions of ChatMessageHistory, over a world that holds the history.
pub record ChatMessageHistory (V W : Type 0) : Type 0 where
  pub messages : Exec W (List (Message V))
  pub add_message : Message V → Exec W (Unit {0})
  pub clear : Exec W (Unit {0})

-- The world of an InMemoryChatMessageHistory: its messages, and what the model changes.
pub record InMemory (V M : Type 0) : Type 0 where
  pub messages : List (Message V)
  pub rest : M

abbrev pub in_memory_history : {V M : Type 0} → ChatMessageHistory V (InMemory V M)
in_memory_history = record {
  messages = λ w. (ok w.messages, w);
  add_message = λ message w. (ok tt, record w { messages = w.messages ++ message ∷ [] });
  clear = λ w. (ok tt, record w { messages = [] });
}

module _ {V W : Type 0} (model : ChatModel V W) (history : ChatMessageHistory V W) where
  add_messages : List (Message V) → Exec W (Unit {0})
  add_messages [] = pure tt
  add_messages (message ∷ rest) = history.add_message message >> add_messages rest

  -- ChatModelWithHistory::invoke
  pub invoke : List (Message V) → Exec W (Message V)
  unfolding add_messages
  invoke new_messages = do
    old ← history.messages
    reply ← model.invoke (old ++ new_messages)
    add_messages new_messages
    history.add_message reply
    pure reply
