-- ===== src/Core/Runnable.antt =====
-- include/langchain/core/runnable.hpp: what turns an input into an output, and how such things are
-- composed. A runnable is its `invoke`, a call over the world `W` that may throw. `ainvoke` runs
-- `invoke` on another thread and is not modelled.
pub mod Laws
use langchain_cpp.Base.{Bool, List, [], ◌∷◌, if◌then◌else◌}
use langchain_cpp.Base.Text.{Text, text_eq}
use langchain_cpp.Base.Exec.{Exec, pure, ◌>>=◌}
use langchain_cpp.Base.Dict.{Dict, insert}

abbrev pub Runnable : Type 0 → Type 0 → Type 0 → Type 0
Runnable W I O = I → Exec W O

module _ {W I O : Type 0} where
  -- Runnable::batch
  pub batch : Runnable W I O → List I → Exec W (List O)
  batch invoke [] = pure []
  batch invoke (input ∷ inputs) = do
    result ← invoke input
    results ← batch invoke inputs
    pure (result ∷ results)

  -- RunnableLambda::invoke, as make_runnable_lambda wraps it
  pub runnable_lambda : (I → Exec W O) → Runnable W I O
  runnable_lambda fn input = fn input

  -- RunnableParallel::invoke, over the branches in the order in which the map is walked
  parallel_from : List (Text × Runnable W I O) → I → Dict O → Exec W (Dict O)
  parallel_from [] input result = pure result
  parallel_from ((key, branch) ∷ branches) input result = do
    value ← branch input
    parallel_from branches input (insert key value result)

  pub runnable_parallel : List (Text × Runnable W I O) → Runnable W I (Dict O)
  unfolding parallel_from
  runnable_parallel branches input = parallel_from branches input []

  -- RunnableBranch::invoke
  pub runnable_branch : List ((I → Bool) × Runnable W I O) → Runnable W I O → Runnable W I O
  runnable_branch [] default_branch input = default_branch input
  runnable_branch ((predicate, branch) ∷ branches) default_branch input =
      if predicate input then branch input else runnable_branch branches default_branch input

-- RunnablePassthrough::invoke
pub runnable_passthrough : {W T : Type 0} → Runnable W T T
runnable_passthrough input = pure input

-- RunnableSequence::invoke, which `first | second` builds
infixl 20 ◌>>>◌
pub ◌>>>◌ : {W I M O : Type 0} → Runnable W I M → Runnable W M O → Runnable W I O
◌>>>◌ first second input = do mid ← first input; second mid
