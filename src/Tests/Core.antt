-- ===== src/Tests/Core.antt =====
-- Messages, .env files, parallel branches, events and the registry.
use langchain_cpp.Base.{
  ℕ, suc, ◌≡◌, ◌⊎◌, refl, List, [], ◌∷◌, ◌++◌, none, some, map, arith, if◌then◌else◌,
}
use langchain_cpp.Base.Text.{Text, codes, text_eq}
use langchain_cpp.Base.Dict.{Dict, lookup}
use langchain_cpp.Base.Json.Sample.{Tree}
use langchain_cpp.Base.Outcome.{Outcome, ok, throws}
use langchain_cpp.Core.Message.{base64_encode}
use langchain_cpp.Core.Message.RoundTrip.{base64_decode, base64_decode-base64_encode}
use langchain_cpp.Core.Dotenv.{load_dotenv, lines}
use langchain_cpp.Core.Dotenv.Laws.{or_then, first_assignment, load_dotenv_lem}
use langchain_cpp.Core.Runnable.{runnable_parallel}
use langchain_cpp.Core.Runnable.Laws.{stateless, branch_result, runnable_parallel_lem}
use langchain_cpp.Core.Callbacks.{dispatch, CallbackHandler, silent_handler}
use langchain_cpp.Core.Callbacks.Delivery.{dispatch_log}
use langchain_cpp.Tools.Tool.{Tool}
use langchain_cpp.Tools.Registry.{ToolRegistry, get}
use langchain_cpp.Tools.Registry.Laws.{get-add}
use langchain_cpp.Llm.History.{invoke, in_memory_history}
use langchain_cpp.Llm.History.Laws.{beside_history, invoke_history}
use langchain_cpp.Tests.Samples.{echo, registry, model, question, asks}

base64_decode-base64_encode_example :
    base64_decode (base64_encode (0 ∷ 255 ∷ 16 ∷ 7 ∷ [])) ≡ some (0 ∷ 255 ∷ 16 ∷ 7 ∷ [])
base64_decode-base64_encode_example =
    base64_decode-base64_encode (0 ∷ 255 ∷ 16 ∷ 7 ∷ [])
      (omega arith, (omega arith, (omega arith, (omega arith, tt))))

load_dotenv_lem_example :
    lookup (codes "A") (load_dotenv (some (codes "A=1\nA=2")) [])
    ≡ or_then none (first_assignment (codes "A") (lines (codes "A=1\nA=2")))
load_dotenv_lem_example = load_dotenv_lem (codes "A") (codes "A=1\nA=2") []

runnable_parallel_lem_example :
    (m : Dict ℕ) × (runnable_parallel (stateless ((codes "a", suc) ∷ (codes "b", λ n. n) ∷ [])) 3 tt
      ≡ (ok m, tt))
    × ((k : Text)
        → lookup k m
          ≡ branch_result (lookup k ((codes "a", suc) ∷ (codes "b", λ n. n) ∷ [])) 3 none)
runnable_parallel_lem_example =
    runnable_parallel_lem ((codes "a", suc) ∷ (codes "b", λ n. n) ∷ []) 3 tt (refl, (refl, tt))

abbrev noting : CallbackHandler Tree (List ℕ) → List ℕ → Outcome (Unit {0}) × List ℕ
noting h log = (throws [], log ++ 1 ∷ [])

dispatch_log_example :
    dispatch (silent_handler ∷ silent_handler ∷ []) noting (5 ∷ [])
    ≡ (5 ∷ [])
      ++ map (λ (h : CallbackHandler Tree (List ℕ)). 1) (silent_handler ∷ silent_handler ∷ [])
dispatch_log_example =
    dispatch_log {V = Tree} (λ log. log) (λ h. 1) noting (silent_handler ∷ silent_handler ∷ [])
      (λ h w. refl) (5 ∷ [])

get-add_example :
    ((get (codes "echo") registry ≡ none)
      × ((r' : ToolRegistry Tree ℕ) × (langchain_cpp.Tools.Registry.add echo registry ≡ ok r')
          × (r'.tools ≡ echo ∷ echo ∷ [])
          × ((k : Text)
              → get k r' ≡ (if text_eq (codes "echo") k then some echo else get k registry))))
    ⊎ ((old : Tool Tree ℕ) × (get (codes "echo") registry ≡ some old)
        × (langchain_cpp.Tools.Registry.add echo registry
            ≡ throws (
                codes "ToolRegistry: a tool named '"
                ++ (codes "echo" ++ codes "' is already registered"))))
get-add_example = get-add echo registry

invoke_history_example :
    invoke (beside_history model) in_memory_history question (record { messages = []; rest = 0 })
    ≡ (ok asks, record { messages = question ++ asks ∷ []; rest = 1 })
invoke_history_example = invoke_history model [] question 0 1 (ok asks) refl
