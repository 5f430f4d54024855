-- ===== src/Agents/Executor/Answers.antt =====
-- What the loop appends to the conversation, and what it returns.
use langchain_cpp.Base.{
  ℕ, zero, suc, ◌≡◌, refl, ◌∙◌, ◌<◌, true, false, List, [], ◌∷◌, ◌++◌, inl, inr, arith,
  append_assoc, append-nil, Bool-cases,
}
use langchain_cpp.Base.Text.{Text}
use langchain_cpp.Base.Json.{Json}
use langchain_cpp.Base.Outcome.{ok, throws, Outcome-cases}
use langchain_cpp.Base.Exec.{Exec, pure, ◌>>=◌}
use langchain_cpp.Core.Message.{Message, ToolCall, tool_result, has_tool_calls}
use langchain_cpp.Llm.ChatModel.{ChatModel}
use langchain_cpp.Tools.Registry.{ToolRegistry}
use langchain_cpp.Agents.Executor.{exceeded, run_call, run_calls, run_steps, run}

-- The messages that answer the calls with the contents, one for each.
abbrev pub answers : {V : Type 0} → List (ToolCall V) → List Text → List (Message V)
answers [] contents = []
answers (call ∷ calls) [] = []
answers (call ∷ calls) (content ∷ contents) = tool_result call.id content ∷ answers calls contents

module _ (J : Json) {W : Type 0} (tools : ToolRegistry J.Value W) where
  -- The contents that the tools give to the calls, in order.
  abbrev pub contents_of : List (ToolCall J.Value) → Exec W (List Text)
  contents_of [] = pure []
  contents_of (call ∷ calls) = do
    content ← run_call J tools call
    contents ← contents_of calls
    pure (content ∷ contents)

  -- The tools run in the order of the calls, and each call is answered by one message, which
  -- carries its id and stands behind the answers of the calls before it. An exception of a tool
  -- ends the loop.
  pub run_calls_lem :
      (calls : List (ToolCall J.Value)) (messages : List (Message J.Value)) (w : W)
      → run_calls J tools calls messages w
        ≡ (contents_of calls >>= λ contents. pure (messages ++ answers calls contents)) w
  unfolding run_calls
  run_calls_lem [] messages w = rw append-nil
  run_calls_lem (call ∷ calls) messages w = elim (Outcome-cases (run_call J tools call w).0) [
    | inl (content, e) ↦
        let w₁ = (run_call J tools call w).1 in
        let reply = tool_result call.id content in
        let ih = run_calls_lem calls (messages ++ reply ∷ []) w₁ in
        elim (Outcome-cases (contents_of calls w₁).0) [
          | inl (cs, e') ↦ ground (arith, ih, append_assoc messages (reply ∷ []) (answers calls cs))
          | inr (what, e') ↦ ground (arith, ih)
        ]
    | inr (what, e) ↦ ground arith
  ]

  module _ (model : ChatModel J.Value W) where
    -- `n` turns in which the model asks for tools and is answered.
    pub data Turns (m' : List (Message J.Value)) (w' : W)
        : ℕ → List (Message J.Value) → W → Type 0 where
      done : Turns m' w' zero m' w'
      turn :
          {n : ℕ} {m : List (Message J.Value)} {w w₁ w₂ : W} {reply : Message J.Value}
          {contents : List Text}
          → model.invoke m w ≡ (ok reply, w₁)
          → has_tool_calls reply ≡ true
          → contents_of reply.tool_calls w₁ ≡ (ok contents, w₂)
          → Turns m' w' n ((m ++ reply ∷ []) ++ answers reply.tool_calls contents) w₂
          → Turns m' w' (suc n) m w

    run_turn :
        (max n : ℕ) (m : List (Message J.Value)) (w w₁ w₂ : W) (reply : Message J.Value)
        (contents : List Text)
        → model.invoke m w ≡ (ok reply, w₁)
        → has_tool_calls reply ≡ true
        → contents_of reply.tool_calls w₁ ≡ (ok contents, w₂)
        → run_steps J model tools max (suc n) m w
          ≡ run_steps J model tools max n
              ((m ++ reply ∷ []) ++ answers reply.tool_calls contents)
              w₂
    unfolding run_steps
    run_turn max n m w w₁ w₂ reply contents asked calls answered =
        rw (asked, calls, run_calls_lem reply.tool_calls (m ++ reply ∷ []) w₁, answered)

    run_asks_ends :
        (max n : ℕ) {k : ℕ} {m m' : List (Message J.Value)} {w w' w'' : W} {reply : Message J.Value}
        → Turns m' w' k m w
        → k < n
        → model.invoke m' w' ≡ (ok reply, w'')
        → has_tool_calls reply ≡ false
        → run_steps J model tools max n m w ≡ (ok reply, w'')
    unfolding run_steps
    run_asks_ends max zero t h e plain = absurd (omega arith)
    run_asks_ends max (suc n) done h e plain = rw (e, plain)
    run_asks_ends max (suc n) (turn asked calls answered t) h e plain =
        run_turn max n _ _ _ _ _ _ asked calls answered
        ∙ run_asks_ends max n t (omega arith) e plain

    run-Turns-exceeded :
        (max : ℕ) {m' : List (Message J.Value)} {w' : W} {n : ℕ} {m : List (Message J.Value)}
        {w : W}
        → Turns m' w' n m w
        → run_steps J model tools max n m w ≡ (throws (exceeded max), w')
    unfolding run_steps
    run-Turns-exceeded max done = refl
    run-Turns-exceeded max (turn asked calls answered t) =
        run_turn max _ _ _ _ _ _ _ asked calls answered ∙ run-Turns-exceeded max t

    -- Where the model asks for tools in `k` turns, fewer than `max_steps`, and then replies
    -- without a call, `run` returns that reply and leaves the world as that call left it.
    pub run-returns :
        (max_steps : ℕ) {k : ℕ} {m m' : List (Message J.Value)} {w w' w'' : W}
        {reply : Message J.Value}
        → Turns m' w' k m w
        → k < max_steps
        → model.invoke m' w' ≡ (ok reply, w'')
        → has_tool_calls reply ≡ false
        → run J model tools max_steps m w ≡ (ok reply, w'')
    unfolding run
    run-returns max_steps = run_asks_ends max_steps max_steps

    -- Where the model asks for tools in each of `max_steps` turns, `run` throws the error that
    -- names the limit, and asks the model no further.
    pub run-exceeded :
        (max_steps : ℕ) {m m' : List (Message J.Value)} {w w' : W}
        → Turns m' w' max_steps m w
        → run J model tools max_steps m w ≡ (throws (exceeded max_steps), w')
    unfolding run
    run-exceeded max_steps = run-Turns-exceeded max_steps

    run_steps-plain :
        (max n : ℕ) (m : List (Message J.Value)) (w w' : W) (reply : Message J.Value)
        → run_steps J model tools max n m w ≡ (ok reply, w')
        → has_tool_calls reply ≡ false
    unfolding run_steps
    run_steps-plain max zero m w w' reply h = ground arith
    run_steps-plain max (suc n) m w w' reply h = elim (Outcome-cases (model.invoke m w).0) [
      | inr (what, e) ↦ ground arith
      | inl (r, e) ↦ elim (Bool-cases (has_tool_calls r)) [
        | inr plain ↦ ground arith
        | inl asks ↦
            let w₁ = (model.invoke m w).1 in
            let answered = run_calls J tools r.tool_calls (m ++ r ∷ []) w₁ in
            elim (Outcome-cases answered.0) [
              | inr (what, e') ↦ ground arith
              | inl (m', e') ↦ run_steps-plain max n m' answered.1 w' reply (ground arith)
            ]
      ]
    ]

    -- Whatever the model and the tools do, a reply that `run` returns asks for no tool.
    pub run-plain :
        (max_steps : ℕ) (m : List (Message J.Value)) (w w' : W) (reply : Message J.Value)
        → run J model tools max_steps m w ≡ (ok reply, w')
        → has_tool_calls reply ≡ false
    unfolding run
    run-plain max_steps = run_steps-plain max_steps max_steps
