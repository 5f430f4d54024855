-- ===== src/Parsers/OutputFixing/Attempts.antt =====
-- How often the parser and the model are asked, and what is returned.
use langchain_cpp.Base.{ℕ, zero, suc, ◌≡◌, ◌≤◌, [], ◌∷◌, arith}
use langchain_cpp.Base.Outcome.{ok, throws}
use langchain_cpp.Base.Exec.{Exec}
use langchain_cpp.Base.Text.{Text}
use langchain_cpp.Core.Message.{Message, user_message}
use langchain_cpp.Llm.ChatModel.{ChatModel}
use langchain_cpp.Parsers.OutputFixing.{fix_prompt, attempts, invoke}

module _ {V W T : Type 0} (inner : Message V → Exec W T) (model : ChatModel V W) where
  -- `n` rounds in which the parser throws, and the model replies to the prompt that shows it the
  -- output and the error.
  pub data Rounds (m' : Message V) (w' : W) : ℕ → Message V → W → Type 0 where
    done : Rounds m' w' zero m' w'
    round :
        {n : ℕ} {m reply : Message V} {w w₁ w₂ : W} {what : Text}
        → inner m w ≡ (throws what, w₁)
        → model.invoke (user_message (fix_prompt m.content what) ∷ []) w₁ ≡ (ok reply, w₂)
        → Rounds m' w' n reply w₂
        → Rounds m' w' (suc n) m w

  attempts-Rounds :
      {m' : Message V} {w' w'' : W} {t : T} (retries : ℕ) {n : ℕ} {m : Message V} {w : W}
      → Rounds m' w' n m w
      → n ≤ retries
      → inner m' w' ≡ (ok t, w'')
      → attempts inner model retries m w ≡ (ok t, w'')
  unfolding attempts
  attempts-Rounds zero done h e = e
  attempts-Rounds zero (round p q r) h e = absurd (omega arith)
  attempts-Rounds (suc retries) done h e = rw e
  attempts-Rounds (suc retries) (round p q r) h e =
      rw (p, q) (attempts-Rounds retries r (omega arith) e)

  -- Where the parser throws on the message and on the replies of `n` retries, no more than are
  -- allowed, but for the last, its result on the last is returned.
  pub invoke-returns :
      (max_retries : ℕ) {n : ℕ} {m m' : Message V} {w w' w'' : W} {t : T}
      → Rounds m' w' n m w
      → n ≤ max_retries
      → inner m' w' ≡ (ok t, w'')
      → invoke inner model max_retries m w ≡ (ok t, w'')
  unfolding invoke
  invoke-returns max_retries = attempts-Rounds max_retries

  attempts-exhausted :
      {m' : Message V} {w' w'' : W} {what : Text} {retries : ℕ} {m : Message V} {w : W}
      → Rounds m' w' retries m w
      → inner m' w' ≡ (throws what, w'')
      → attempts inner model retries m w ≡ (throws what, w'')
  unfolding attempts
  attempts-exhausted done e = e
  attempts-exhausted (round p q r) e = rw (p, q) (attempts-exhausted r e)

  -- Where the parser still throws when all retries are used up, that last error is thrown, and the
  -- model is not asked again.
  pub invoke-exhausted :
      (max_retries : ℕ) {m m' : Message V} {w w' w'' : W} {what : Text}
      → Rounds m' w' max_retries m w
      → inner m' w' ≡ (throws what, w'')
      → invoke inner model max_retries m w ≡ (throws what, w'')
  unfolding invoke
  invoke-exhausted max_retries = attempts-exhausted
