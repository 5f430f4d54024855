-- ===== src/Agents/Executor.antt =====
-- include/langchain/agents/agent_executor.hpp and src/agents/agent_executor.cpp. A `max_steps` of
-- zero or less makes no step, so it is a natural number here.
pub mod Answers
use langchain_cpp.Base.{
  ℕ, zero, suc, Bool, true, false, not, List, [], ◌∷◌, ◌++◌, Option, none, some, if◌then◌else◌,
}
use langchain_cpp.Base.Text.{Text, codes}
use langchain_cpp.Base.Decimal.{to_string}
use langchain_cpp.Base.Json.{Json}
use langchain_cpp.Base.Outcome.{Outcome, ok, throws}
use langchain_cpp.Base.Exec.{Exec, pure, raise, continue, ◌>>=◌}
use langchain_cpp.Core.Message.{Message, ToolCall, user_message, tool_result, has_tool_calls}
use langchain_cpp.Llm.ChatModel.{ChatModel}
use langchain_cpp.Tools.Registry.{ToolRegistry, get}
use langchain_cpp.Tools.Tool.{Result, success, failure, Tool}

pub exceeded : ℕ → Text
exceeded max_steps =
    codes "AgentExecutor: exceeded max_steps ("
    ++ (to_string max_steps ++ codes ") without a final answer")

module _ (J : Json) where
  open J use {Value, object, string, dump}

  unfoldable pub error_content : Text → Text
  error_content message = dump (object ((codes "error", string message) ∷ []))

  unfoldable pub content_of : Result Value → Text
  unfolding error_content
  content_of (success v) = dump v
  content_of (failure message) = error_content message

module _ (J : Json) {W : Type 0} where
  open J use {Value}

  abbrev called : Option (Tool Value W) → ToolCall Value → Exec W Text
  called none call = pure (error_content J (codes "unknown tool: " ++ call.tool_name))
  called (some tool) call = tool.call call.arguments >>= λ result. pure (content_of J result)

  -- The content of the message that answers a call.
  unfoldable pub run_call : ToolRegistry Value W → ToolCall Value → Exec W Text
  run_call tools call = called (get call.tool_name tools) call

  -- The inner loop of AgentExecutor::run.
  pub run_calls :
      ToolRegistry Value W
      → List (ToolCall Value)
      → List (Message Value)
      → Exec W (List (Message Value))
  unfolding run_call
  run_calls tools [] messages = pure messages
  run_calls tools (call ∷ rest) messages = do
    result_content ← run_call tools call
    run_calls tools rest (messages ++ tool_result call.id result_content ∷ [])

  module _ (bound_model : ChatModel Value W) (tools : ToolRegistry Value W) where
    -- The outer loop, with the steps that are left.
    pub run_steps : ℕ → ℕ → List (Message Value) → Exec W (Message Value)
    run_steps max_steps zero messages = raise (exceeded max_steps)
    run_steps max_steps (suc steps) messages = do
      reply ← bound_model.invoke messages
      if not (has_tool_calls reply) then pure reply else do
        answered ← run_calls tools reply.tool_calls (messages ++ reply ∷ [])
        run_steps max_steps steps answered

    -- AgentExecutor::run
    pub run : ℕ → List (Message Value) → Exec W (Message Value)
    run max_steps messages = run_steps max_steps max_steps messages

    -- AgentExecutor::run, on a text
    pub run_input : ℕ → Text → Exec W (Message Value)
    unfolding run
    run_input max_steps user_input = run max_steps (user_message user_input ∷ [])
