-- ===== src/Llm/Callbacking.antt =====
-- include/langchain/callbacks and src/callbacks: a chat model and a tool that report what they do to
-- a callback manager, and the handler that prints.
pub mod Trace
use langchain_cpp.Base.{Bool, true, false, List, [], ◌∷◌, ◌++◌, if◌then◌else◌, length}
use langchain_cpp.Base.Text.{Text, codes}
use langchain_cpp.Base.Decimal.{to_string}
use langchain_cpp.Base.Json.{Json}
use langchain_cpp.Base.Outcome.{Outcome, ok, throws}
use langchain_cpp.Base.Exec.{Exec, pure, raise, continue, ◌>>=◌, ◌>>◌}
use langchain_cpp.Core.Callbacks.{
  CallbackHandler, CallbackManager, on_llm_start, on_llm_new_token, on_llm_end, on_llm_error,
  on_tool_start, on_tool_end, on_tool_error,
}
use langchain_cpp.Core.Message.{Message, has_tool_calls}
use langchain_cpp.Llm.ChatModel.{ChatModel, StreamChunk, StreamCallback}
use langchain_cpp.Tools.Tool.{Tool, Result, success, failure}

-- A call of the manager, which throws nothing.
abbrev notify : {W : Type 0} → (W → W) → Exec W (Unit {0})
notify f w = (ok tt, f w)

pub record CallbackingChatModel (V W : Type 0) : Type 0 where
  pub inner : ChatModel V W
  pub callbacks : CallbackManager V W

module _ {V W : Type 0} where
  invoke_ended : CallbackingChatModel V W → Outcome (Message V) → Exec W (Message V)
  invoke_ended c (ok result) = do
    notify (on_llm_end c.callbacks (record { model_name = c.inner.model_name; result = result }))
    pure result
  invoke_ended c (throws e) = do
    notify (on_llm_error c.callbacks (record { model_name = c.inner.model_name; error = e }))
    raise e

  -- CallbackingChatModel::invoke
  pub invoke : CallbackingChatModel V W → List (Message V) → Exec W (Message V)
  unfolding invoke_ended
  invoke c messages w =
      let w₁ =
        on_llm_start c.callbacks (record { model_name = c.inner.model_name; messages = messages })
          w in
      let (r, w₂) = c.inner.invoke messages w₁ in invoke_ended c r w₂

  -- The callback that CallbackingChatModel::stream hands to the inner model.
  pub stream_callback : CallbackingChatModel V W → StreamCallback V W → StreamCallback V W
  stream_callback c on_chunk chunk = do
    notify (
        if chunk.is_final
        then on_llm_end c.callbacks
            (record { model_name = c.inner.model_name; result = chunk.message })
        else on_llm_new_token c.callbacks
            (record { model_name = c.inner.model_name; delta = chunk.delta }))
    on_chunk chunk

  stream_ended : CallbackingChatModel V W → Outcome (Unit {0}) → Exec W (Unit {0})
  stream_ended c (ok done) = pure done
  stream_ended c (throws e) = do
    notify (on_llm_error c.callbacks (record { model_name = c.inner.model_name; error = e }))
    raise e

  -- CallbackingChatModel::stream
  pub stream : CallbackingChatModel V W → List (Message V) → StreamCallback V W → Exec W (Unit {0})
  unfolding stream_callback stream_ended
  stream c messages on_chunk w =
      let w₁ =
        on_llm_start c.callbacks (record { model_name = c.inner.model_name; messages = messages })
          w in
      let (r, w₂) = c.inner.stream messages (stream_callback c on_chunk) w₁ in stream_ended c r w₂

  -- CallbackingChatModel::bind_tools, on the inner model with the tools bound
  pub bind_tools : CallbackingChatModel V W → ChatModel V W → CallbackingChatModel V W
  bind_tools c bound = record { inner = bound; callbacks = c.callbacks }

  tool_ended : Tool V W → CallbackManager V W → Result V → Exec W (Result V)
  tool_ended inner callbacks (success output) = do
    notify (on_tool_end callbacks (record { tool_name = inner.name; output = output }))
    pure (success output)
  tool_ended inner callbacks (failure message) = do
    notify (on_tool_error callbacks (record { tool_name = inner.name; error = message }))
    pure (failure message)

  -- CallbackingTool::call
  pub call_tool : Tool V W → CallbackManager V W → V → Exec W (Result V)
  unfolding tool_ended
  call_tool inner callbacks input = do
    notify (on_tool_start callbacks (record { tool_name = inner.name; input = input }))
    result ← inner.call input
    tool_ended inner callbacks result

-- ConsoleCallbackHandler, over the text that its stream has taken.
module _ (J : Json) where
  open J use {Value, dump}

  abbrev printed : Text → Exec Text (Unit {0})
  printed s out = (ok tt, out ++ s)

  pub console_callback_handler : CallbackHandler Value Text
  console_callback_handler = record {
    on_llm_start = λ e. printed (
        codes "[llm start] "
        ++ (e.model_name
            ++ (codes " (" ++ (to_string (length e.messages) ++ codes " messages)\n"))));
    on_llm_new_token = λ e. printed e.delta;
    on_llm_end = λ e. printed (
        codes "[llm end] "
        ++ (e.model_name
            ++ (codes ": "
                ++ ((if has_tool_calls e.result
                      then codes "(requested a tool call)"
                      else e.result.content)
                    ++ codes "\n"))));
    on_llm_error = λ e.
        printed (codes "[llm error] " ++ (e.model_name ++ (codes ": " ++ (e.error ++ codes "\n"))));
    on_tool_start = λ e.
        printed
          (codes "[tool start] " ++ (e.tool_name ++ (codes "(" ++ (dump e.input ++ codes ")\n"))));
    on_tool_end = λ e.
        printed
          (codes "[tool end] " ++ (e.tool_name ++ (codes " -> " ++ (dump e.output ++ codes "\n"))));
    on_tool_error = λ e.
        printed (codes "[tool error] " ++ (e.tool_name ++ (codes ": " ++ (e.error ++ codes "\n"))));
  }
