-- ===== src/Providers/OpenAi/Stream/Assembly.antt =====
-- The message that is assembled at the end of a stream.
use langchain_cpp.Base.{◌≡◌, refl, ◌⊎◌, inl, inr, false, true, List, [], ◌∷◌, is_empty}
use langchain_cpp.Base.Text.{Text}
use langchain_cpp.Base.Json.{Json, Integer}
use langchain_cpp.Base.Outcome.{ok, throws, traverse}
use langchain_cpp.Core.Message.{ToolCall, assistant_tool_calls}
use langchain_cpp.Providers.OpenAi.Stream.{Accumulator, Calls, Progress, finish_call, finish}

module _ (J : Json) where
  open J use {Value, object, parse}

  -- The arguments that a text stands for: the value that it holds, or an empty object where it is empty or
  -- is refused by a parse_error.
  abbrev pub Arguments : Text → Value → Type 0
  Arguments text v =
      ((text ≡ []) × (v ≡ object []))
      ⊎ (((is_empty text ≡ false) × (parse text ≡ ok v))
          ⊎ ((is_empty text ≡ false)
              × ((e : Text) × (parse text ≡ throws e) × (J.is_parse_error e ≡ true))
              × (v ≡ object [])))

  -- The calls, each with the id, the name and the arguments that were gathered for it, in order.
  abbrev pub Assembled : Calls → List (ToolCall Value) → Type 0
  Assembled [] [] = Unit
  Assembled [] (call ∷ calls) = ⊥
  Assembled (a ∷ gathered) [] = ⊥
  Assembled ((i, a) ∷ gathered) (call ∷ calls) =
      (call.id ≡ a.id)
      × (call.tool_name ≡ a.name)
      × Arguments a.arguments call.arguments
      × Assembled gathered calls

  finish_call_lem :
      (i : Integer) (a : Accumulator) (v : Value)
      → Arguments a.arguments v
      → finish_call J (i, a) ≡ ok (record { id = a.id; tool_name = a.name; arguments = v })
  unfolding finish_call
  finish_call_lem i a v (inl (e, d)) = simp (e, d)
  finish_call_lem i a v (inr (inl (n, p))) = rw (n, p) refl
  finish_call_lem i a v (inr (inr (n, (e, p, t), d))) = rw (n, p, t, d) refl

  calls_lem :
      (gathered : Calls) (calls : List (ToolCall Value))
      → Assembled gathered calls
      → traverse (finish_call J) gathered ≡ ok calls
  unfolding traverse
  calls_lem [] [] h = refl
  calls_lem [] (call ∷ calls) h = absurd h
  calls_lem (a ∷ gathered) [] h = absurd h
  calls_lem ((i, a) ∷ gathered) (call ∷ calls) (e, n, v, h) =
      rw (finish_call_lem i a call.arguments v, calls_lem gathered calls h, e, n) refl

  message_lem :
      (text : Text) (deltas : List Text) (done : _) (gathered : Calls)
      (calls : List (ToolCall Value))
      → Assembled gathered calls
      → finish J (record { text = text; done = done; tool_calls = gathered; deltas = deltas })
        ≡ ok (assistant_tool_calls calls text)
  unfolding finish
  message_lem text deltas done [] [] h = refl
  message_lem text deltas done [] (call ∷ calls) h = absurd h
  message_lem text deltas done (a ∷ gathered) calls h = rw (calls_lem (a ∷ gathered) calls h) refl

  -- The message has the text and the calls.
  pub finish_lem :
      (p : Progress) (calls : List (ToolCall Value))
      → Assembled p.tool_calls calls
      → finish J p ≡ ok (assistant_tool_calls calls p.text)
  finish_lem p calls h = message_lem p.text p.deltas p.done p.tool_calls calls h
