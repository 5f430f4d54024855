-- ===== src/Core/Callbacks.antt =====
-- include/langchain/core/callbacks.hpp and src/core/callbacks.cpp: events, handlers, and the manager
-- that fans events out. A handler's hook is a call over the world `W` that may throw.
pub mod Delivery
use langchain_cpp.Base.{List, [], ◌∷◌, ◌++◌}
use langchain_cpp.Base.Text.{Text}
use langchain_cpp.Base.Outcome.{ok}
use langchain_cpp.Base.Exec.{Exec}
use langchain_cpp.Core.Message.{Message}

pub record LlmStartEvent (V : Type 0) : Type 0 where
  pub model_name : Text
  pub messages : List (Message V)

pub record LlmNewTokenEvent : Type 0 where
  pub model_name : Text
  pub delta : Text

pub record LlmEndEvent (V : Type 0) : Type 0 where
  pub model_name : Text
  pub result : Message V

pub record LlmErrorEvent : Type 0 where
  pub model_name : Text
  pub error : Text

pub record ToolStartEvent (V : Type 0) : Type 0 where
  pub tool_name : Text
  pub input : V

pub record ToolEndEvent (V : Type 0) : Type 0 where
  pub tool_name : Text
  pub output : V

pub record ToolErrorEvent : Type 0 where
  pub tool_name : Text
  pub error : Text

pub record CallbackHandler (V W : Type 0) : Type 0 where
  pub on_llm_start : LlmStartEvent V → Exec W (Unit {0})
  pub on_llm_new_token : LlmNewTokenEvent → Exec W (Unit {0})
  pub on_llm_end : LlmEndEvent V → Exec W (Unit {0})
  pub on_llm_error : LlmErrorEvent → Exec W (Unit {0})
  pub on_tool_start : ToolStartEvent V → Exec W (Unit {0})
  pub on_tool_end : ToolEndEvent V → Exec W (Unit {0})
  pub on_tool_error : ToolErrorEvent → Exec W (Unit {0})

-- A subclass that overrides nothing.
abbrev pub silent_handler : {V W : Type 0} → CallbackHandler V W
silent_handler = record {
  on_llm_start = λ e w. (ok tt, w);
  on_llm_new_token = λ e w. (ok tt, w);
  on_llm_end = λ e w. (ok tt, w);
  on_llm_error = λ e w. (ok tt, w);
  on_tool_start = λ e w. (ok tt, w);
  on_tool_end = λ e w. (ok tt, w);
  on_tool_error = λ e w. (ok tt, w);
}

pub record CallbackManager (V W : Type 0) : Type 0 where
  pub handlers : List (CallbackHandler V W)

module _ {V W : Type 0} where
  -- An exception of a handler is dropped, and the next handler runs in the world it left.
  unfoldable pub dispatch :
      List (CallbackHandler V W) → (CallbackHandler V W → Exec W (Unit {0})) → W → W
  dispatch [] fn w = w
  dispatch (handler ∷ rest) fn w = let (r, w') = fn handler w in dispatch rest fn w'

  pub add_handler : CallbackHandler V W → CallbackManager V W → CallbackManager V W
  add_handler handler m = record { handlers = m.handlers ++ handler ∷ [] }

  unfoldable pub on_llm_start : CallbackManager V W → LlmStartEvent V → W → W
  unfolding dispatch
  on_llm_start m event = dispatch m.handlers (λ handler. handler.on_llm_start event)

  unfoldable pub on_llm_new_token : CallbackManager V W → LlmNewTokenEvent → W → W
  unfolding dispatch
  on_llm_new_token m event = dispatch m.handlers (λ handler. handler.on_llm_new_token event)

  unfoldable pub on_llm_end : CallbackManager V W → LlmEndEvent V → W → W
  unfolding dispatch
  on_llm_end m event = dispatch m.handlers (λ handler. handler.on_llm_end event)

  unfoldable pub on_llm_error : CallbackManager V W → LlmErrorEvent → W → W
  unfolding dispatch
  on_llm_error m event = dispatch m.handlers (λ handler. handler.on_llm_error event)

  unfoldable pub on_tool_start : CallbackManager V W → ToolStartEvent V → W → W
  unfolding dispatch
  on_tool_start m event = dispatch m.handlers (λ handler. handler.on_tool_start event)

  unfoldable pub on_tool_end : CallbackManager V W → ToolEndEvent V → W → W
  unfolding dispatch
  on_tool_end m event = dispatch m.handlers (λ handler. handler.on_tool_end event)

  unfoldable pub on_tool_error : CallbackManager V W → ToolErrorEvent → W → W
  unfolding dispatch
  on_tool_error m event = dispatch m.handlers (λ handler. handler.on_tool_error event)
