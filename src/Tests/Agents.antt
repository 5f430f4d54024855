-- ===== src/Tests/Agents.antt =====
-- The agent's loop with the sample model and tool.
use langchain_cpp.Base.{◌≡◌, refl, arith}
use langchain_cpp.Base.Json.Sample.{sample}
use langchain_cpp.Base.Outcome.{ok, throws}
use langchain_cpp.Tools.Registry.{get}
use langchain_cpp.Agents.Executor.{exceeded, run, run_call, content_of}
use langchain_cpp.Agents.Executor.Answers.{done, turn, run-returns, run-exceeded}
use langchain_cpp.Tests.Samples.{registry, model, question, answers_it}

run-returns_example : run sample model registry 2 question 0 ≡ (ok answers_it, 3)
unfolding run_call content_of get
run-returns_example =
    run-returns sample registry model 2 {k = 1} {m = question} (turn refl refl refl done)
      (omega arith) refl refl

run-exceeded_example : run sample model registry 1 question 0 ≡ (throws (exceeded 1), 2)
unfolding run_call content_of get
run-exceeded_example =
    run-exceeded sample registry model 1 {m = question} (turn refl refl refl done)
