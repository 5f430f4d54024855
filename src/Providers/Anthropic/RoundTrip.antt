-- ===== src/Providers/Anthropic/RoundTrip.antt =====
-- Messages through the Anthropic format.
use langchain_cpp.Base.{
  ◌≡◌, refl, ap, ◌∙◌, List, [], ◌∷◌, ◌++◌, map, if◌then◌else◌, Bool-cases, inl, inr, append_assoc,
  append-nil,
}
use langchain_cpp.Base.Text.{Text, codes}
use langchain_cpp.Base.Join.{join, append_part, append_parts, append_parts_lem, from_nonempty}
use langchain_cpp.Base.Json.{Json}
use langchain_cpp.Base.Outcome.{Outcome, ok, throws, ◌>>=◌, traverse, Outcome-cases}
use langchain_cpp.Core.Message.{ToolCall, Message, assistant_tool_calls}
use langchain_cpp.Providers.Anthropic.{
  Blocks, is_system, tool_use_block, text_block, message_to_anthropic_json, parse_tool_use,
  parse_block, parse_blocks, parse_anthropic_message, payload,
}

module _ (J : Json) where
  open J use {Value}

  tool_use :
      (call : ToolCall Value) (b : Blocks Value)
      → parse_block J (tool_use_block J call) b ≡ ok (record b { calls = b.calls ++ call ∷ [] })
  unfolding parse_block parse_tool_use tool_use_block
  tool_use call b = simp (J.is_object-object, J.find-object, J.as_string-string)

  tool_uses :
      (calls : List (ToolCall Value)) (b : Blocks Value)
      → parse_blocks J (map (tool_use_block J) calls) b ≡ ok (record b { calls = b.calls ++ calls })
  unfolding parse_blocks
  tool_uses [] b = rw append-nil refl
  tool_uses (call ∷ calls) b =
      rw
        (
          tool_use call b,
          tool_uses calls (record b { calls = b.calls ++ call ∷ [] }),
          append_assoc b.calls (call ∷ []) calls,
        )
        refl

  all_blocks :
      (calls : List (ToolCall Value)) (content : Text)
      → parse_blocks J
          (text_block J content ++ map (tool_use_block J) calls)
          (record { text = []; calls = [] })
        ≡ ok (record { text = content; calls = calls })
  unfolding text_block parse_blocks parse_block
  all_blocks calls [] = tool_uses calls (record { text = []; calls = [] })
  all_blocks calls (c ∷ content) = simp (
    J.is_object-object,
    J.find-object,
    J.as_string-string,
    tool_uses calls (record { text = c ∷ content; calls = [] }),
  )

  -- An assistant's message with tool calls, with a text or without one, is written without an
  -- exception, and what is written is read back as the message.
  pub anthropic_round_trip :
      (call : ToolCall Value) (calls : List (ToolCall Value)) (content : Text)
      → (message_to_anthropic_json J (assistant_tool_calls (call ∷ calls) content)
          >>= parse_anthropic_message J)
        ≡ ok (assistant_tool_calls (call ∷ calls) content)
  unfolding message_to_anthropic_json parse_anthropic_message
  anthropic_round_trip call calls content =
      simp (J.is_object-object, J.find-object, J.elements-array, all_blocks (call ∷ calls) content)

  -- The texts of the system messages, and the other messages.
  abbrev pub system_texts : List (Message Value) → List Text
  system_texts [] = []
  system_texts (m ∷ ms) =
      let rest = system_texts ms in if is_system m.role then m.content ∷ rest else rest

  abbrev pub other_messages : List (Message Value) → List (Message Value)
  other_messages [] = []
  other_messages (m ∷ ms) =
      let rest = other_messages ms in if is_system m.role then rest else m ∷ rest

  abbrev pub beside : Text → List Value → Outcome (List Value) → Outcome (Text × List Value)
  beside prompt before (throws e) = throws e
  beside prompt before (ok vs) = ok (prompt, before ++ vs)

  payload_from :
      (ms : List (Message Value)) (prompt : Text) (vs : List Value)
      → payload J ms prompt vs
        ≡ beside
            (append_parts (codes "\n") (system_texts ms) prompt)
            vs
            (traverse (message_to_anthropic_json J) (other_messages ms))
  unfolding payload traverse append_parts
  payload_from [] prompt vs = rw append-nil refl
  payload_from (m ∷ ms) prompt vs = elim (Bool-cases (is_system m.role)) [
    | inl e ↦ rw e (payload_from ms (append_part (codes "\n") prompt m.content) vs)
    | inr e ↦ rw e (elim (Outcome-cases (message_to_anthropic_json J m)) [
      | inr (what, h) ↦ rw h refl
      | inl (v, h) ↦
          rw (h, payload_from ms prompt (vs ++ v ∷ []))
            (elim (Outcome-cases (traverse (message_to_anthropic_json J) (other_messages ms))) [
              | inr (what, t) ↦ rw t refl
              | inl (ws, t) ↦ rw (t, append_assoc vs (v ∷ []) ws) refl
            ])
    ])
  ]

  -- The system prompt is the system messages' texts in order, a newline between them, without the
  -- empty ones that come first; the payload is the other messages in order, and an exception of one
  -- of them is passed on.
  pub payload_lem :
      (ms : List (Message Value))
      → payload J ms [] []
        ≡ beside
            (join (codes "\n") (from_nonempty (system_texts ms)))
            []
            (traverse (message_to_anthropic_json J) (other_messages ms))
  payload_lem ms =
      payload_from ms [] []
      ∙ ap (λ prompt. beside prompt [] (traverse (message_to_anthropic_json J) (other_messages ms)))
          (append_parts_lem (codes "\n") (system_texts ms))
