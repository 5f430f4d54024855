-- ===== src/Providers/Gemini/Correlation.antt =====
-- Gemini names the function where the library has a call's id.
use langchain_cpp.Base.{
  ℕ, suc, ◌≡◌, refl, ap, ◌∙◌, List, [], ◌∷◌, ◌++◌, map, Option, none, some, if◌then◌else◌, is_empty,
  Bool-cases, ◌⊎◌, inl, inr, true, sym, append_assoc, append-nil,
}
use langchain_cpp.Base.Text.{Text, codes, text_eq}
use langchain_cpp.Base.Decimal.{to_string}
use langchain_cpp.Base.Dict.{Dict, lookup, insert, lookup-insert}
use langchain_cpp.Base.Json.{Json}
use langchain_cpp.Base.Outcome.{Outcome, ok, throws, ◌>>=◌}
use langchain_cpp.Core.Message.{
  MessageRole, system, user, assistant, tool, ToolCall, Message, tool_result, assistant_tool_calls,
}
use langchain_cpp.Providers.Gemini.{
  GeminiRequest, Parts, add_names, name_or_id, function_response, add_content, add_message,
  names_after, request_from, messages_to_gemini_request, text_part, function_call_part, calls_parts,
  parse_call, parsed_or_string, parse_part, parse_parts, message_of, parse_gemini_message,
  with_parts,
}

-- The name of the last of the calls with that id, or `old`.
abbrev pub last_call : {V : Type 0} → Text → List (ToolCall V) → Option Text → Option Text
last_call id [] old = old
last_call id (call ∷ calls) old =
    last_call id calls (if text_eq call.id id then some call.tool_name else old)

-- The same in a conversation, whose system and tool messages make no calls.
abbrev pub calls_made : {V : Type 0} → MessageRole → List (ToolCall V) → List (ToolCall V)
calls_made system calls = []
calls_made tool calls = []
calls_made user calls = calls
calls_made assistant calls = calls

abbrev pub last_name : {V : Type 0} → Text → List (Message V) → Option Text → Option Text
last_name id [] old = old
last_name id (m ∷ ms) old = last_name id ms (last_call id (calls_made m.role m.tool_calls) old)

lookup-add_names :
    {V : Type 0} (id : Text) (calls : List (ToolCall V)) (names : Dict Text)
    → lookup id (add_names calls names) ≡ last_call id calls (lookup id names)
unfolding add_names
lookup-add_names id [] names = refl
lookup-add_names id (call ∷ calls) names =
    lookup-add_names id calls (insert call.id call.tool_name names)
    ∙ ap (last_call id calls) (lookup-insert call.id id call.tool_name names)

module _ (J : Json) where
  open J use {Value}

  lookup-names_after :
      (id : Text) (role : MessageRole) (m : Message Value) (names : Dict Text)
      → lookup id (names_after J role m names)
        ≡ last_call id (calls_made role m.tool_calls) (lookup id names)
  unfolding names_after
  lookup-names_after id system m names = refl
  lookup-names_after id tool m names = refl
  lookup-names_after id user m names = lookup-add_names id m.tool_calls names
  lookup-names_after id assistant m names = lookup-add_names id m.tool_calls names

  abbrev pub then_add : Value → Outcome (GeminiRequest Value) → Outcome (GeminiRequest Value)
  then_add v (throws e) = throws e
  then_add v (ok request) = ok (add_content J v request)

  -- The value that a tool's result is sent as: the one that it holds, or the text itself where that is
  -- refused by a parse_error.
  abbrev pub IsResult : Text → Value → Type 0
  IsResult content v =
      (J.parse content ≡ ok v)
      ⊎ ((e : Text) × (J.parse content ≡ throws e)
          × (J.is_parse_error e ≡ true)
          × (v ≡ J.string content))

  -- What Gemini takes for the result of a function.
  abbrev pub named_result : Text → Value → Value
  named_result name v =
      let response : Value = J.object ((codes "result", v) ∷ []) in
      let named : Value =
        J.object ((codes "name", J.string name) ∷ (codes "response", response) ∷ []) in
      let part : Value = J.object ((codes "functionResponse", named) ∷ []) in
      J.object
        ((codes "role", J.string (codes "function")) ∷ (codes "parts", J.array (part ∷ [])) ∷ [])

  result_lem :
      (content : Text) (v : Value)
      → IsResult content v
      → parsed_or_string J content (J.parse content) ≡ ok v
  result_lem content v (inl e) = rw e refl
  result_lem content v (inr (e, p, t, d)) = rw (p, t, d) refl

  onto_lem :
      (v : Value) (r : Outcome (GeminiRequest Value))
      (next next' : GeminiRequest Value → Outcome (GeminiRequest Value))
      → ((request : GeminiRequest Value) → next request ≡ then_add v (next' request))
      → (r >>= next) ≡ then_add v (r >>= next')
  onto_lem v (ok request) next next' h = h request
  onto_lem v (throws e) next next' h = refl

  request_from-result :
      (ms : List (Message Value)) (id content : Text) (v : Value) (names : Dict Text)
      (request : GeminiRequest Value)
      → IsResult content v
      → request_from J (ms ++ tool_result id content ∷ []) names request
        ≡ then_add
            (named_result (name_or_id (last_name id ms (lookup id names)) id) v)
            (request_from J ms names request)
  unfolding request_from add_message function_response
  request_from-result [] id content v names request h = rw (result_lem content v h) refl
  request_from-result (m ∷ ms) id content v names request h =
      elim (Bool-cases (is_empty m.images)) [
        | inr e ↦ rw e refl
        | inl e ↦
            rw (e, sym (lookup-names_after id m.role m names))
              (onto_lem
                (named_result
                  (name_or_id (last_name id ms (lookup id (names_after J m.role m names))) id) v)
                (add_message J m.role m names request)
                (request_from J (ms ++ tool_result id content ∷ []) (names_after J m.role m names))
                (request_from J ms (names_after J m.role m names))
                (λ q. request_from-result ms id content v (names_after J m.role m names) q h))
      ]

  -- A tool's result comes behind the conversation, as a functionResponse under the name of the last call
  -- with its id, or under the id where no call has it, with the value that it holds, or as a text where it
  -- is refused by a parse_error.
  pub gemini_tool_result :
      (ms : List (Message Value)) (id content : Text) (v : Value)
      → IsResult content v
      → messages_to_gemini_request J (ms ++ tool_result id content ∷ [])
        ≡ then_add
            (named_result (name_or_id (last_name id ms none) id) v)
            (messages_to_gemini_request J ms)
  unfolding messages_to_gemini_request
  gemini_tool_result ms id content v h =
      request_from-result ms id content v [] (record { system_instruction = []; contents = [] }) h

  -- The same calls, with the ids that a reader of the response makes up.
  abbrev pub renumber : ℕ → List (ToolCall Value) → List (ToolCall Value)
  renumber n [] = []
  renumber n (call ∷ calls) =
      record call { id = codes "call_" ++ to_string n } ∷ renumber (suc n) calls

  call_part :
      (call : ToolCall Value) (p : Parts Value)
      → parse_part J (function_call_part J call) p
        ≡ ok (record p {
          calls = p.calls ++ record call { id = codes "call_" ++ to_string p.next_id } ∷ [];
          next_id = suc p.next_id;
        })
  unfolding parse_part parse_call function_call_part
  call_part call p = simp (J.is_object-object, J.find-object, J.as_string-string)

  call_parts :
      (calls : List (ToolCall Value)) (p : Parts Value)
      → (n : ℕ) × (parse_parts J (map (function_call_part J) calls) p
          ≡ ok (record p { calls = p.calls ++ renumber p.next_id calls; next_id = n }))
  unfolding parse_parts
  call_parts [] p = (p.next_id, rw append-nil refl)
  call_parts (call ∷ calls) p =
      let q : Parts Value = record p {
        calls = p.calls ++ record call { id = codes "call_" ++ to_string p.next_id } ∷ [];
        next_id = suc p.next_id;
      } in
      let (n, e) = call_parts calls q in
      (
        n,
        rw
            (
              call_part call p,
              e,
              append_assoc p.calls (record call { id = codes "call_" ++ to_string p.next_id } ∷ [])
                  (renumber (suc p.next_id) calls),
            )
            refl,
      )

  -- What the service sends for a reply with these calls and this text.
  abbrev pub gemini_response : List (ToolCall Value) → Text → Value
  gemini_response calls content =
      let candidate : Value = J.object (
        (
          codes "content",
          with_parts J (codes "model") (calls_parts J (assistant_tool_calls calls content)),
        )
        ∷ []) in
      J.object ((codes "candidates", J.array (candidate ∷ [])) ∷ [])

  first_part :
      (content : Text)
      → parse_part J (text_part J content) (record { text = []; calls = []; next_id = 0 })
        ≡ ok (record { text = content; calls = []; next_id = 0 })
  unfolding parse_part text_part
  first_part content = simp (J.is_object-object, J.find-object, J.as_string-string)

  parts_lem :
      (calls : List (ToolCall Value)) (content : Text)
      → (n : ℕ) × (parse_parts J
            (calls_parts J (assistant_tool_calls calls content))
            (record { text = []; calls = []; next_id = 0 })
          ≡ ok (record { text = content; calls = renumber 0 calls; next_id = n }))
  unfolding calls_parts parse_parts
  parts_lem calls [] = call_parts calls (record { text = []; calls = []; next_id = 0 })
  parts_lem calls (c ∷ content) =
      let (n, e) = call_parts calls (record { text = c ∷ content; calls = []; next_id = 0 }) in
      (n, rw (first_part (c ∷ content), e) refl)

  message_of-renumber :
      (calls : List (ToolCall Value)) (content : Text) (n : ℕ)
      → message_of J (record { text = content; calls = renumber 0 calls; next_id = n })
        ≡ assistant_tool_calls (renumber 0 calls) content
  unfolding message_of
  message_of-renumber [] content n = refl
  message_of-renumber (call ∷ calls) content n = refl

  -- A response is read as its text and its calls, which get the ids call_0, call_1 and so on.
  pub parse_gemini_message-renumber :
      (calls : List (ToolCall Value)) (content : Text)
      → parse_gemini_message J (gemini_response calls content)
        ≡ ok (assistant_tool_calls (renumber 0 calls) content)
  unfolding parse_gemini_message
  parse_gemini_message-renumber calls content =
      let (n, e) = parts_lem calls content in
      simp (
        J.is_object-object,
        J.find-object,
        J.size-array,
        J.is_array-array,
        J.elements-array,
        e,
        message_of-renumber calls content n,
      )
