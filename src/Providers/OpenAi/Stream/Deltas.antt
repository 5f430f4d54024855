-- ===== src/Providers/OpenAi/Stream/Deltas.antt =====
-- The parser only adds deltas.
use langchain_cpp.Base.{
  ℕ, zero, suc, ◌≡◌, refl, ap, sym, ◌∙◌, Bool, false, List, [], ◌∷◌, ◌++◌, Option, none, some, inl,
  inr, append_assoc, append-nil, Option-cases, Bool-cases, length, ◌==◌, if_both,
}
use langchain_cpp.Base.Text.{Text, codes, text_eq, break_at, strip_prefix}
use langchain_cpp.Base.Json.{Json, Integer, front, get_string, value_integer, natural}
use langchain_cpp.Base.Outcome.{Outcome, ok, throws, Outcome-cases}
use langchain_cpp.Base.Exec.{Exec, lift, continue, ◌>>=◌}
use langchain_cpp.Providers.OpenAi.Stream.{
  Progress, Parser, Accumulator, when_found, add_text, add_content, store_function, store_call,
  store_calls, process_delta, process_choices, process_parsed, process_payload, process_stripped,
  process_line, drain, feed, update, member, after_line,
}
use langchain_cpp.Mcp.Sse.{drop_return}

-- More deltas behind those of before.
abbrev pub Grown : List Text → List Text → Type 0
Grown before after = (more : List Text) × (after ≡ before ++ more)

abbrev Grows : {A : Type 0} → Exec Progress A → Type 0
Grows m = (p : Progress) → Grown p.deltas ((m p).1).deltas

Grown-refl : (ds : List Text) → Grown ds ds
Grown-refl ds = ([], sym (append-nil ds))

Grown-trans : (a b c : List Text) → Grown a b → Grown b c → Grown a c
Grown-trans a b c (m, e) (n, f) = (m ++ n, f ∙ ap (λ x. x ++ n) e ∙ append_assoc a m n)

Grows-continue :
    {A B : Type 0} (r : Outcome A) (f : A → Exec Progress B)
    → ((a : A) → Grows (f a))
    → Grows (continue r f)
Grows-continue (ok a) f h p = h a p
Grows-continue (throws e) f h p = Grown-refl p.deltas

Grows-bind :
    {A B : Type 0} (m : Exec Progress A) (f : A → Exec Progress B)
    → Grows m
    → ((a : A) → Grows (f a))
    → Grows (m >>= f)
Grows-bind m f hm hf p =
    let q = m p in
    Grown-trans p.deltas q.1.deltas ((continue q.0 f q.1).1).deltas (hm p)
      (Grows-continue q.0 f hf q.1)

Grows-lift : {A : Type 0} (r : Outcome A) → Grows (lift r)
Grows-lift r p = Grown-refl p.deltas

Grows-update : (i : Integer) (f : Accumulator → Accumulator) → Grows (update i f)
Grows-update i f p = Grown-refl p.deltas

module _ (J : Json) where
  open J use {Value}

  Grows-found :
      (o : Option Value) (f : Value → Exec Progress (Unit {0}))
      → ((v : Value) → Grows (f v))
      → Grows (when_found J o f)
  Grows-found none f h p = Grown-refl p.deltas
  Grows-found (some v) f h p = h v p

  Grows-text : (piece : Text) → Grows (add_text J piece)
  unfolding add_text
  Grows-text [] p = Grown-refl p.deltas
  Grows-text (c ∷ piece) p = ((c ∷ piece) ∷ [], refl)

  Grows-content : (o : Option Text) → Grows (add_content J o)
  Grows-content none p = Grown-refl p.deltas
  Grows-content (some piece) p = Grows-text piece p

  Grows-function : (i : Integer) (v : Value) → Grows (store_function J i v)
  unfolding store_function
  Grows-function i v =
      Grows-bind
        (when_found J (J.find (codes "name") v)
          (λ n. lift (get_string J n) >>= λ name. update i (λ a. record a { name = name })))
        (λ u. when_found J (J.find (codes "arguments") v) (λ n. lift (get_string J n) >>= λ more.
          update i (λ a. record a { arguments = a.arguments ++ more })))
        (Grows-found (J.find (codes "name") v)
          (λ n. lift (get_string J n) >>= λ name. update i (λ a. record a { name = name }))
          (λ n.
            Grows-continue (get_string J n) (λ name. update i (λ a. record a { name = name }))
              (λ name. Grows-update i (λ a. record a { name = name }))))
        (λ u.
          Grows-found (J.find (codes "arguments") v)
            (λ n. lift (get_string J n) >>= λ more.
              update i (λ a. record a { arguments = a.arguments ++ more }))
            (λ n.
              Grows-continue (get_string J n)
                (λ more. update i (λ a. record a { arguments = a.arguments ++ more }))
                (λ more. Grows-update i (λ a. record a { arguments = a.arguments ++ more }))))

  Grows-call : (tc : Value) → Grows (store_call J tc)
  unfolding store_call
  Grows-call tc p = elim (Outcome-cases (value_integer J (codes "index") tc (natural 0))) [
    | inr (e, h) ↦ rw h (Grown-refl p.deltas)
    | inl (i, h) ↦ rw h (
        Grows-bind
          (when_found J (J.find (codes "id") tc)
            (λ v. lift (get_string J v) >>= λ id. update i (λ a. record a { id = id })))
          (λ u. when_found J (J.find (codes "function") tc) (store_function J i))
          (Grows-found (J.find (codes "id") tc)
            (λ v. lift (get_string J v) >>= λ id. update i (λ a. record a { id = id }))
            (λ v.
              Grows-continue (get_string J v) (λ id. update i (λ a. record a { id = id }))
                (λ id. Grows-update i (λ a. record a { id = id }))))
          (λ u. Grows-found (J.find (codes "function") tc) (store_function J i) (Grows-function i))
          ((update i (λ a. a) p).1))
  ]

  Grows-calls : (tcs : List Value) → Grows (store_calls J tcs)
  unfolding store_calls
  Grows-calls [] p = Grown-refl p.deltas
  Grows-calls (tc ∷ tcs) p =
      Grows-bind (store_call J tc) (λ u. store_calls J tcs) (Grows-call tc) (λ u. Grows-calls tcs) p

  Grows-delta : (delta : Value) → Grows (process_delta J delta)
  unfolding process_delta
  Grows-delta delta p =
      Grows-bind
        (when_found J (J.find (codes "content") delta) (λ v. add_content J (J.as_string v)))
        (λ u. when_found J (J.find (codes "tool_calls") delta) (λ v. store_calls J (J.elements v)))
        (Grows-found (J.find (codes "content") delta) (λ v. add_content J (J.as_string v))
          (λ v. Grows-content (J.as_string v)))
        (λ u.
          Grows-found (J.find (codes "tool_calls") delta) (λ v. store_calls J (J.elements v))
            (λ v. Grows-calls (J.elements v)))
        p

  Grows-choices : (choices : Value) → Grows (process_choices J choices)
  unfolding process_choices
  Grows-choices choices p = elim (Bool-cases (J.size choices == 0)) [
    | inl e ↦ rw e (Grown-refl p.deltas)
    | inr e ↦ rw e (
        Grows-continue (front J choices)
          (λ choice. lift (member J (codes "delta") choice) >>= λ delta. process_delta J delta)
          (λ choice. Grows-continue (member J (codes "delta") choice) (process_delta J) Grows-delta)
          p)
  ]

  Grows-parsed : (r : Outcome Value) → Grows (process_parsed J r)
  Grows-parsed (throws e) p = elim (Bool-cases (J.is_parse_error e)) [
    | inl t ↦ rw t (Grown-refl p.deltas)
    | inr f ↦ rw f (Grown-refl p.deltas)
  ]
  Grows-parsed (ok v) p =
      Grows-found (J.find (codes "choices") v) (process_choices J) Grows-choices p

  Grows-payload : (payload : Text) → Grows (process_payload J payload)
  unfolding process_payload
  Grows-payload payload p = elim (Bool-cases (text_eq payload (codes "[DONE]"))) [
    | inl e ↦ rw e (Grown-refl p.deltas)
    | inr e ↦ rw e (Grows-parsed (J.parse payload) p)
  ]

  Grows-stripped : (o : Option Text) → Grows (process_stripped J o)
  Grows-stripped none p = Grown-refl p.deltas
  Grows-stripped (some payload) p = Grows-payload payload p

  Grows-line : (line : Text) → Grows (process_line J line)
  unfolding process_line
  Grows-line line = Grows-stripped (strip_prefix (codes "data: ") line)

  Grows-after :
      (r : Outcome (Unit {0})) (rest : Text) (p : Progress)
      (next : Text → Progress → Outcome Bool × (Text × Progress))
      → ((b : Text) (q : Progress) → Grown q.deltas ((next b q).1.1).deltas)
      → Grown p.deltas ((after_line J r rest p next).1.1).deltas
  Grows-after (throws e) rest p next h = Grown-refl p.deltas
  Grows-after (ok u) rest p next h =
      if_both (λ x. Grown p.deltas ((x.1.1).deltas)) p.done (ok false, (rest, p)) (next rest p)
        (Grown-refl p.deltas) (h rest p)

  Grows-drain : (n : ℕ) (b : Text) (p : Progress) → Grown p.deltas ((drain J n b p).1.1).deltas
  unfolding drain
  Grows-drain zero b p = Grown-refl p.deltas
  Grows-drain (suc n) b p = elim (Option-cases (break_at 10 b)) [
    | inl e ↦ rw e (Grown-refl p.deltas)
    | inr ((line, rest), e) ↦
        let q = process_line J (drop_return line) p in
        rw e (
          Grown-trans p.deltas q.1.deltas ((after_line J q.0 rest q.1 (drain J n)).1.1).deltas
            (Grows-line (drop_return line) p)
            (Grows-after q.0 rest q.1 (drain J n) (Grows-drain n)))
  ]

  pub feed-Grown :
      (t : Text) (p : Parser) → Grown p.progress.deltas ((feed J t p).1).progress.deltas
  unfolding feed
  feed-Grown t p = Grows-drain (length (p.buffer ++ t)) (p.buffer ++ t) p.progress
