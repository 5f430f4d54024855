-- ===== src/Tests/Samples.antt =====
-- A tool that echoes its arguments, a registry with it, and a model that asks for it once and then
-- answers. The world counts the calls of the two.
use langchain_cpp.Base.{ℕ, suc, List, [], ◌∷◌, ◌==◌, if◌then◌else◌}
use langchain_cpp.Base.Text.{codes}
use langchain_cpp.Base.Json.Sample.{Tree, sample}
use langchain_cpp.Base.Outcome.{ok}
use langchain_cpp.Core.Message.{
  Message, ToolCall, user_message, assistant_message, assistant_tool_calls,
}
use langchain_cpp.Llm.ChatModel.{ChatModel}
use langchain_cpp.Tools.Tool.{Tool, success}
use langchain_cpp.Tools.Registry.{ToolRegistry}

abbrev pub echo : Tool Tree ℕ
echo = record {
  name = codes "echo";
  description = codes "gives its arguments back";
  parameters_schema = sample.object [];
  call = λ v w. (ok (success v), suc w);
}

abbrev pub registry : ToolRegistry Tree ℕ
registry = record { tools = echo ∷ []; by_name = (codes "echo", echo) ∷ [] }

abbrev pub echo_call : ToolCall Tree
echo_call = record { id = codes "c1"; tool_name = codes "echo"; arguments = sample.null }

abbrev pub asks : Message Tree
asks = assistant_tool_calls (echo_call ∷ []) []

abbrev pub answers_it : Message Tree
answers_it = assistant_message (codes "done")

abbrev pub model : ChatModel Tree ℕ
model = record {
  model_name = codes "m";
  invoke = λ messages w. (ok (if w == 0 then asks else answers_it), suc w);
  stream = λ messages on_chunk w. (ok tt, w);
}

abbrev pub question : List (Message Tree)
question = user_message (codes "hi") ∷ []
