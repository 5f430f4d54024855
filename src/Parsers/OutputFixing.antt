-- ===== src/Parsers/OutputFixing.antt =====
-- include/langchain/parsers/output_fixing_parser.hpp. A `max_retries` of zero or less makes no retry,
-- so it is a natural number here.
pub mod Attempts
use langchain_cpp.Base.{ℕ, zero, suc, List, [], ◌∷◌, ◌++◌}
use langchain_cpp.Base.Outcome.{Outcome, ok, throws}
use langchain_cpp.Base.Exec.{Exec, pure, raise, continue, ◌>>=◌}
use langchain_cpp.Base.Text.{Text, codes}
use langchain_cpp.Core.Message.{Message, user_message}
use langchain_cpp.Llm.ChatModel.{ChatModel}

pub fix_prompt : Text → Text → Text
fix_prompt content what =
    codes "The following output could not be parsed:\n\n"
    ++ (content
        ++ (codes "\n\nParsing failed with this error: "
            ++ (what
                ++ codes
                    "\n\nPlease respond again with correctly formatted output only, no explanation.")))

-- The try block, with its handler where the call throws.
abbrev attempted : {W T : Type 0} → Outcome T → (Text → Exec W T) → Exec W T
attempted (ok result) handler w = (ok result, w)
attempted (throws what) handler w = handler what w

module _ {V W T : Type 0} (inner : Message V → Exec W T) (model : ChatModel V W) where
  -- The loop, with the retries that are left.
  attempts : ℕ → Message V → Exec W T
  attempts zero current w = inner current w
  attempts (suc retries) current w =
      let (r, w') = inner current w in
      attempted r
        (λ what. do
          reply ← model.invoke (user_message (fix_prompt current.content what) ∷ [])
          attempts retries reply)
        w'

  -- OutputFixingParser::invoke
  pub invoke : ℕ → Message V → Exec W T
  unfolding attempts
  invoke max_retries message = attempts max_retries message
