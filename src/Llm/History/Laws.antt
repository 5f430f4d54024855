-- ===== src/Llm/History/Laws.antt =====
-- What a turn leaves in the history.
use langchain_cpp.Base.{◌≡◌, ◌∙◌, List, [], ◌∷◌, ◌++◌, append_assoc, append-nil}
use langchain_cpp.Base.Outcome.{Outcome, ok, throws}
use langchain_cpp.Base.Exec.{Exec}
use langchain_cpp.Core.Message.{Message}
use langchain_cpp.Llm.ChatModel.{ChatModel, default_stream}
use langchain_cpp.Llm.History.{InMemory, in_memory_history, add_messages, invoke}

abbrev pub in_rest : {V M A : Type 0} → (M → Outcome A × M) → Exec (InMemory V M) A
in_rest m w = let (r, rest') = m w.rest in (r, record w { rest = rest' })

-- A model that does not touch the history, and streams its reply as one chunk.
abbrev pub beside_history : {V M : Type 0} → ChatModel V M → ChatModel V (InMemory V M)
beside_history model = record {
  model_name = model.model_name;
  invoke = λ messages. in_rest (model.invoke messages);
  stream = default_stream (λ messages. in_rest (model.invoke messages));
}

module _ {V M : Type 0} (model : ChatModel V M) where
  add_messages_lem :
      (messages old : List (Message V)) (m : M)
      → add_messages
          (beside_history model)
          in_memory_history
          messages
          (record { messages = old; rest = m })
        ≡ (ok tt, record { messages = old ++ messages; rest = m })
  unfolding add_messages
  add_messages_lem [] old m = rw append-nil
  add_messages_lem (x ∷ messages) old m =
      add_messages_lem messages (old ++ x ∷ []) m ∙ rw append_assoc

  -- A turn hands the model the whole conversation. Where the model replies, the history then
  -- holds the conversation, the new messages and the reply; where it throws, the history is left
  -- as it was.
  pub invoke_history :
      (old new : List (Message V)) (m m' : M) (r : Outcome (Message V))
      → model.invoke (old ++ new) m ≡ (r, m')
      → invoke (beside_history model) in_memory_history new (record { messages = old; rest = m })
        ≡ (
          r,
          record {
            messages = elim r [ throws e ↦ old | ok reply ↦ (old ++ new) ++ reply ∷ [] ];
            rest = m';
          },
        )
  unfolding invoke
  invoke_history old new m m' (ok reply) h = rw (h, add_messages_lem new old m')
  invoke_history old new m m' (throws e) h = rw h
