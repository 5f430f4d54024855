-- ===== src/Providers/OpenAi/Stream.antt =====
-- OpenAiStreamParser of src/providers/openai/openai_wire_format.cpp. Its state holds the deltas given
-- to on_delta too; what was stored before an exception stays stored.
pub mod Chunks
pub mod Deltas
pub mod Assembly
use langchain_cpp.Base.{
  ℕ, zero, suc, Bool, true, false, not, List, [], ◌∷◌, ◌++◌, map, Option, none, some, ◌==◌, ltb,
  if◌then◌else◌, length, is_empty,
}
use langchain_cpp.Base.Text.{Text, codes, text_eq, break_at, strip_prefix}
use langchain_cpp.Base.Json.{
  Json, Integer, natural, negative, integer_eq, front, get_string, value_integer,
}
use langchain_cpp.Base.Outcome.{Outcome, ok, throws, traverse}
use langchain_cpp.Base.Exec.{Exec, pure, raise, lift, ◌>>=◌, ◌>>◌}
use langchain_cpp.Core.Message.{ToolCall, Message, assistant_message, assistant_tool_calls}
use langchain_cpp.Mcp.Sse.{drop_return}

-- ToolCallAccumulator
pub record Accumulator : Type 0 where
  pub id : Text
  pub name : Text
  pub arguments : Text

abbrev pub no_call : Accumulator
no_call = record { id = []; name = []; arguments = [] }

-- operator< on int
abbrev pub integer_less : Integer → Integer → Bool
integer_less (natural a) (natural b) = ltb a b
integer_less (natural a) (negative b) = false
integer_less (negative a) (natural b) = true
integer_less (negative a) (negative b) = ltb b a

-- std::map<int, ToolCallAccumulator>, in the order of its keys
abbrev pub Calls : Type 0
Calls = List (Integer × Accumulator)

-- f on tool_calls_[index]
unfoldable pub update_call : Integer → (Accumulator → Accumulator) → Calls → Calls
update_call i f [] = (i, f no_call) ∷ []
update_call i f ((j, a) ∷ calls) =
    let rest = update_call i f calls in
    if integer_eq i j
    then (j, f a) ∷ calls
    else if integer_less i j
    then (i, f no_call) ∷ (j, a) ∷ calls
    else (j, a) ∷ rest

-- The fields that a line can change, with the deltas given to on_delta.
pub record Progress : Type 0 where
  pub text : Text
  pub done : Bool
  pub tool_calls : Calls
  pub deltas : List Text

pub record Parser : Type 0 where
  pub buffer : Text
  pub progress : Progress

abbrev pub new_parser : Parser
new_parser = record {
  buffer = [];
  progress = record { text = []; done = false; tool_calls = []; deltas = [] };
}

abbrev pub modify : (Progress → Progress) → Exec Progress (Unit {0})
modify f p = (ok tt, f p)

abbrev pub update : Integer → (Accumulator → Accumulator) → Exec Progress (Unit {0})
update i f = modify (λ p. record p { tool_calls = update_call i f p.tool_calls })

module _ (J : Json) where
  open J use {
    Value, null, object, is_null, is_object, size, find, elements, as_string, parse, type_message,
  }

  -- v[k] on a value that is not const, which holds null where the member is not there
  abbrev pub found_or_null : Option Value → Value
  found_or_null none = null
  found_or_null (some x) = x

  unfoldable pub member : Text → Value → Outcome Value
  member k v =
      if is_object v
      then ok (found_or_null (find k v))
      else if is_null v
      then ok null
      else throws (type_message v)

  abbrev pub when_found :
      Option Value → (Value → Exec Progress (Unit {0})) → Exec Progress (Unit {0})
  when_found none f = pure tt
  when_found (some v) f = f v

  unfoldable pub add_text : Text → Exec Progress (Unit {0})
  add_text piece =
      if not (is_empty piece)
      then modify (λ p. record p { text = p.text ++ piece; deltas = p.deltas ++ piece ∷ [] })
      else pure tt

  -- delta["content"], where it is a string
  abbrev pub add_content : Option Text → Exec Progress (Unit {0})
  add_content none = pure tt
  add_content (some piece) = add_text piece

  unfoldable pub store_function : Integer → Value → Exec Progress (Unit {0})
  store_function index function =
      when_found (find (codes "name") function)
        (λ v. lift (get_string J v) >>= λ name. update index (λ a. record a { name = name }))
      >> when_found (find (codes "arguments") function) (λ v. lift (get_string J v) >>= λ more.
          update index (λ a. record a { arguments = a.arguments ++ more }))

  unfoldable pub store_call : Value → Exec Progress (Unit {0})
  unfolding store_function
  store_call tc = lift (value_integer J (codes "index") tc (natural 0)) >>= λ index.
      update index (λ a. a)
      >> when_found (find (codes "id") tc)
          (λ v. lift (get_string J v) >>= λ id. update index (λ a. record a { id = id }))
      >> when_found (find (codes "function") tc) (store_function index)

  unfoldable pub store_calls : List Value → Exec Progress (Unit {0})
  unfolding store_call
  store_calls [] = pure tt
  store_calls (tc ∷ tcs) = store_call tc >> store_calls tcs

  unfoldable pub process_delta : Value → Exec Progress (Unit {0})
  unfolding add_text store_calls
  process_delta delta =
      when_found (find (codes "content") delta) (λ v. add_content (as_string v))
      >> when_found (find (codes "tool_calls") delta) (λ v. store_calls (elements v))

  unfoldable pub process_choices : Value → Exec Progress (Unit {0})
  unfolding process_delta member
  process_choices choices =
      if size choices == 0
      then pure tt
      else (lift (front J choices) >>= λ choice.
          lift (member (codes "delta") choice) >>= λ delta. process_delta delta)

  -- Of what parse throws, only a parse_error is caught, here and in finish_call.
  abbrev pub process_parsed : Outcome Value → Exec Progress (Unit {0})
  process_parsed (throws e) = if J.is_parse_error e then pure tt else raise e
  process_parsed (ok parsed) = when_found (find (codes "choices") parsed) process_choices

  unfoldable pub process_payload : Text → Exec Progress (Unit {0})
  unfolding process_choices
  process_payload payload =
      if text_eq payload (codes "[DONE]")
      then modify (λ p. record p { done = true })
      else process_parsed (parse payload)

  abbrev pub process_stripped : Option Text → Exec Progress (Unit {0})
  process_stripped none = pure tt
  process_stripped (some payload) = process_payload payload

  -- OpenAiStreamParser::process_line
  unfoldable pub process_line : Text → Exec Progress (Unit {0})
  unfolding process_payload
  process_line line = process_stripped (strip_prefix (codes "data: ") line)

  -- The loop of feed. Each round takes a newline out of the buffer, so its length is enough fuel.
  abbrev pub after_line :
      Outcome (Unit {0})
      → Text
      → Progress
      → (Text → Progress → Outcome Bool × (Text × Progress))
      → Outcome Bool × (Text × Progress)
  after_line (throws e) rest p next = (throws e, (rest, p))
  after_line (ok u) rest p next = if p.done then (ok false, (rest, p)) else next rest p

  abbrev pub next_line :
      Option (Text × Text)
      → Text
      → Progress
      → (Text → Progress → Outcome Bool × (Text × Progress))
      → Outcome Bool × (Text × Progress)
  next_line none buffer p next = (ok true, (buffer, p))
  next_line (some (line, rest)) buffer p next =
      let (r, p') = process_line (drop_return line) p in after_line r rest p' next

  unfoldable pub drain : ℕ → Text → Progress → Outcome Bool × (Text × Progress)
  unfolding process_line
  drain zero buffer p = (ok true, (buffer, p))
  drain (suc fuel) buffer p = next_line (break_at 10 buffer) buffer p (drain fuel)

  abbrev pub kept : Outcome Bool × (Text × Progress) → Outcome Bool × Parser
  kept (r, (buffer, p)) = (r, record { buffer = buffer; progress = p })

  -- OpenAiStreamParser::feed
  unfoldable pub feed : Text → Exec Parser Bool
  unfolding drain
  feed data_text p =
      kept (drain (length (p.buffer ++ data_text)) (p.buffer ++ data_text) p.progress)

  abbrev pub parsed_or_empty : Outcome Value → Outcome Value
  parsed_or_empty (ok v) = ok v
  parsed_or_empty (throws e) = if J.is_parse_error e then ok (object []) else throws e

  abbrev pub with_arguments : Accumulator → Outcome Value → Outcome (ToolCall Value)
  with_arguments a (ok v) = ok (record { id = a.id; tool_name = a.name; arguments = v })
  with_arguments a (throws e) = throws e

  unfoldable pub finish_call : Integer × Accumulator → Outcome (ToolCall Value)
  finish_call (i, a) =
      with_arguments a
        (if is_empty a.arguments then ok (object []) else parsed_or_empty (parse a.arguments))

  abbrev pub with_calls : Text → Outcome (List (ToolCall Value)) → Outcome (Message Value)
  with_calls text (ok calls) = ok (assistant_tool_calls calls text)
  with_calls text (throws e) = throws e

  -- OpenAiStreamParser::finish
  unfoldable pub finish : Progress → Outcome (Message Value)
  unfolding finish_call
  finish p =
      if not (is_empty p.tool_calls)
      then with_calls p.text (traverse finish_call p.tool_calls)
      else ok (assistant_message p.text)
