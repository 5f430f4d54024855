-- ===== src/Llm/Callbacking/Trace.antt =====
-- What the handlers see of a call, and that the call itself is not changed.
use langchain_cpp.Base.{
  ◌≡◌, ◌∙◌, List, [], ◌∷◌, ◌++◌, map, append_assoc, if◌then◌else◌, Bool-cases, inl, inr, append-nil,
}
use langchain_cpp.Base.Text.{Text}
use langchain_cpp.Base.Outcome.{Outcome, ok, throws}
use langchain_cpp.Base.Exec.{Exec, lift, ◌>>◌}
use langchain_cpp.Core.Callbacks.{
  LlmStartEvent, LlmNewTokenEvent, LlmEndEvent, LlmErrorEvent, ToolStartEvent, ToolEndEvent,
  ToolErrorEvent, CallbackHandler, CallbackManager, on_llm_start, on_llm_new_token, on_llm_end,
  on_llm_error, on_tool_start, on_tool_end, on_tool_error,
}
use langchain_cpp.Core.Message.{Message}
use langchain_cpp.Llm.ChatModel.{ChatModel, StreamChunk, StreamCallback, default_stream, deliver}
use langchain_cpp.Llm.Callbacking.{CallbackingChatModel, invoke, stream, stream_callback, call_tool}
use langchain_cpp.Tools.Tool.{Tool, Result, success, failure}

pub data Event (V : Type 0) : Type 0 where
  llm_start : LlmStartEvent V → Event V
  llm_new_token : LlmNewTokenEvent → Event V
  llm_end : LlmEndEvent V → Event V
  llm_error : LlmErrorEvent → Event V
  tool_start : ToolStartEvent V → Event V
  tool_end : ToolEndEvent V → Event V
  tool_error : ToolErrorEvent → Event V

-- A world with the events that a handler has noted.
pub record Observed (V M : Type 0) : Type 0 where
  pub rest : M
  pub events : List (Event V)

abbrev pub in_rest : {V M A : Type 0} → (M → Outcome A × M) → Exec (Observed V M) A
in_rest m w = let (r, rest') = m w.rest in (r, record w { rest = rest' })

module _ {V M : Type 0} where
  -- A hook that notes its event, and then returns or throws as `reaction` says.
  abbrev pub note : (Event V → Outcome (Unit {0})) → Event V → Exec (Observed V M) (Unit {0})
  note reaction e w = (reaction e, record w { events = w.events ++ e ∷ [] })

  abbrev pub recorder : (Event V → Outcome (Unit {0})) → CallbackHandler V (Observed V M)
  recorder reaction = record {
    on_llm_start = λ e. note reaction (llm_start e);
    on_llm_new_token = λ e. note reaction (llm_new_token e);
    on_llm_end = λ e. note reaction (llm_end e);
    on_llm_error = λ e. note reaction (llm_error e);
    on_tool_start = λ e. note reaction (tool_start e);
    on_tool_end = λ e. note reaction (tool_end e);
    on_tool_error = λ e. note reaction (tool_error e);
  }

  abbrev pub watched_by : (Event V → Outcome (Unit {0})) → CallbackManager V (Observed V M)
  watched_by reaction = record { handlers = recorder reaction ∷ [] }

module _ {V : Type 0} where
  -- What ends an invoke, by its outcome.
  abbrev pub end_event : Text → Outcome (Message V) → Event V
  end_event name (ok result) = llm_end (record { model_name = name; result = result })
  end_event name (throws e) = llm_error (record { model_name = name; error = e })

  abbrev pub chunk_event : Text → StreamChunk V → Event V
  chunk_event name chunk =
      if chunk.is_final
      then llm_end (record { model_name = name; result = chunk.message })
      else llm_new_token (record { model_name = name; delta = chunk.delta })

  abbrev pub tool_event : Text → Result V → Event V
  tool_event name (success output) = tool_end (record { tool_name = name; output = output })
  tool_event name (failure message) = tool_error (record { tool_name = name; error = message })

module _ {V M : Type 0} (reaction : Event V → Outcome (Unit {0})) (model : ChatModel V M) where
  abbrev pub watched : CallbackingChatModel V (Observed V M)
  watched = record {
    inner = record {
      model_name = model.model_name;
      invoke = λ messages. in_rest (model.invoke messages);
      stream = default_stream (λ messages. in_rest (model.invoke messages));
    };
    callbacks = watched_by reaction;
  }

  -- The wrapped model returns, or throws, what the inner model does, and changes what the inner
  -- model changes. A handler, whether it throws or not, sees the start and then one event: the end
  -- with the reply, or the error with its text.
  pub invoke_trace :
      (messages : List (Message V)) (m m' : M) (r : Outcome (Message V)) (events : List (Event V))
      → model.invoke messages m ≡ (r, m')
      → invoke watched messages (record { rest = m; events = events }) ≡ (
        r,
        record {
          rest = m';
          events =
              (events
                ++ llm_start (record { model_name = model.model_name; messages = messages }) ∷ [])
              ++ end_event model.model_name r ∷ [];
        },
      )
  unfolding invoke on_llm_start on_llm_end on_llm_error
  invoke_trace messages m m' (ok reply) events h = rw h
  invoke_trace messages m m' (throws e) events h = rw h

module _ {V M : Type 0} (reaction : Event V → Outcome (Unit {0})) (model : ChatModel V M) where
  -- The inner model streams the chunks and then ends as `r` says.
  abbrev pub streaming :
      List (StreamChunk V) → Outcome (Unit {0}) → CallbackingChatModel V (Observed V M)
  streaming chunks r = record {
    inner = record {
      model_name = model.model_name;
      invoke = λ messages. in_rest (model.invoke messages);
      stream = λ messages on_chunk. deliver chunks on_chunk >> lift r;
    };
    callbacks = watched_by reaction;
  }

  -- A client's callback that takes every chunk.
  abbrev pub taking : (StreamChunk V → M → M) → StreamCallback V (Observed V M)
  taking take chunk w = (ok tt, record w { rest = take chunk w.rest })

  abbrev pub take_all : (StreamChunk V → M → M) → List (StreamChunk V) → M → M
  take_all take [] m = m
  take_all take (chunk ∷ chunks) m = take_all take chunks (take chunk m)

  deliver_trace :
      (take : StreamChunk V → M → M) (all chunks : List (StreamChunk V)) (r : Outcome (Unit {0}))
      (m : M) (events : List (Event V))
      → deliver chunks
          (stream_callback (streaming all r) (taking take))
          (record { rest = m; events = events })
        ≡ (
          ok tt,
          record {
            rest = take_all take chunks m;
            events = events ++ map (chunk_event model.model_name) chunks;
          },
        )
  unfolding deliver stream_callback on_llm_new_token on_llm_end
  deliver_trace take all [] r m events = rw append-nil
  deliver_trace take all (c ∷ chunks) r m events = elim (Bool-cases c.is_final) [
    | inl f ↦
        let seen = llm_end (record { model_name = model.model_name; result = c.message }) in
        simp f (deliver_trace take all chunks r (take c m) (events ++ seen ∷ []) ∙ rw append_assoc)
    | inr f ↦
        let seen = llm_new_token (record { model_name = model.model_name; delta = c.delta }) in
        simp f (deliver_trace take all chunks r (take c m) (events ++ seen ∷ []) ∙ rw append_assoc)
  ]

  -- What stands behind the chunks of a stream, by its outcome.
  abbrev pub stream_error : Outcome (Unit {0}) → List (Event V)
  stream_error (ok done) = []
  stream_error (throws e) = llm_error (record { model_name = model.model_name; error = e }) ∷ []

  -- The client's callback gets every chunk of the inner stream, and the outcome is the inner one. A
  -- handler sees the start, then for each chunk, in order, its token or, for a final chunk, the end
  -- with its message, and last, where the inner stream throws, the error.
  pub stream_trace :
      (take : StreamChunk V → M → M) (messages : List (Message V)) (chunks : List (StreamChunk V))
      (r : Outcome (Unit {0})) (m : M) (events : List (Event V))
      → stream (streaming chunks r) messages (taking take) (record { rest = m; events = events })
        ≡ (
          r,
          record {
            rest = take_all take chunks m;
            events =
                ((events
                    ++ llm_start (record { model_name = model.model_name; messages = messages })
                      ∷ [])
                  ++ map (chunk_event model.model_name) chunks)
                ++ stream_error r;
          },
        )
  unfolding stream on_llm_start on_llm_error
  stream_trace take messages chunks (ok done) m events = rw (
    deliver_trace take chunks chunks (ok done) m
        (events ++ llm_start (record { model_name = model.model_name; messages = messages }) ∷ []),
    append-nil,
  )
  stream_trace take messages chunks (throws e) m events = rw (
      deliver_trace take chunks chunks (throws e) m
        (events ++ llm_start (record { model_name = model.model_name; messages = messages }) ∷ []))

-- A tool that does not touch the events.
abbrev pub watched_tool : {V M : Type 0} → Tool V M → Tool V (Observed V M)
watched_tool inner = record {
  name = inner.name;
  description = inner.description;
  parameters_schema = inner.parameters_schema;
  call = λ v. in_rest (inner.call v);
}

-- A tool's call through the wrapper has the inner result, failures included, and a handler sees
-- the start and then the end with the output, or the error with its message.
pub call_tool_trace :
    {V M : Type 0} (reaction : Event V → Outcome (Unit {0})) (inner : Tool V M) (input : V)
    (m m' : M) (r : Result V) (events : List (Event V))
    → inner.call input m ≡ (ok r, m')
    → call_tool
        (watched_tool inner)
        (watched_by reaction)
        input
        (record { rest = m; events = events })
      ≡ (
        ok r,
        record {
          rest = m';
          events =
              (events ++ tool_start (record { tool_name = inner.name; input = input }) ∷ [])
              ++ tool_event inner.name r ∷ [];
        },
      )
unfolding call_tool on_tool_start on_tool_end on_tool_error
call_tool_trace reaction inner input m m' (success output) events h = rw h
call_tool_trace reaction inner input m m' (failure message) events h = rw h
