-- ===== src/Tests/Text.antt =====
-- Templates and parsers.
use langchain_cpp.Base.{ℕ, ◌≡◌, refl, [], ◌∷◌, arith, if◌then◌else◌}
use langchain_cpp.Base.Text.{Text, codes, text_eq}
use langchain_cpp.Base.Json.Sample.{Tree}
use langchain_cpp.Base.Outcome.{Outcome, ok, throws}
use langchain_cpp.Core.Message.{Message, user_message}
use langchain_cpp.Prompts.Template.{render_template}
use langchain_cpp.Prompts.Template.Pieces.{literal, placeholder, render_template-print}
use langchain_cpp.Parsers.OutputFixing.{invoke}
use langchain_cpp.Parsers.OutputFixing.Attempts.{done, round, invoke-returns}
use langchain_cpp.Tests.Samples.{model}

render_template-print_example :
    render_template (codes "a{x}{y}{") ((codes "x", codes "{y}") ∷ []) ≡ codes "a{y}{y}{"
render_template-print_example =
    render_template-print
      (literal (codes "a") ∷ placeholder (codes "x") ∷ placeholder (codes "y") ∷ []) (codes "{")
      ((codes "x", codes "{y}") ∷ []) ((refl, tt), ((refl, tt), ((refl, tt), tt))) (refl, tt)

-- A parser that wants the text "done".
abbrev wants_done : Message Tree → ℕ → Outcome Text × ℕ
wants_done m w =
    (if text_eq m.content (codes "done") then ok m.content else throws (codes "bad"), w)

invoke-returns_example : invoke wants_done model 1 (user_message []) 4 ≡ (ok (codes "done"), 5)
invoke-returns_example =
    invoke-returns wants_done model 1 {n = 1} {m = user_message []} (round refl refl done)
      (omega arith) refl
