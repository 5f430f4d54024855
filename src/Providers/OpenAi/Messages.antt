-- ===== src/Providers/OpenAi/Messages.antt =====
-- An assistant's message is read back as it was written.
use langchain_cpp.Base.{◌≡◌, List, [], ◌∷◌}
use langchain_cpp.Base.Text.{Text}
use langchain_cpp.Base.Json.{Json, RoundTrips}
use langchain_cpp.Base.Outcome.{ok, traverse-map}
use langchain_cpp.Core.Message.{ToolCall, assistant_tool_calls}
use langchain_cpp.Providers.OpenAi.{
  content_or_empty, call_to_json, calls_message, text_message, message_to_openai_json, parse_call,
  parse_calls, parse_text, parse_openai_message,
}

module _ (J : Json) (r : RoundTrips J) where
  open J use {Value}

  call_round_trip : (c : ToolCall Value) → parse_call J (call_to_json J c) ≡ ok c
  unfolding parse_call call_to_json
  call_round_trip c = simp (J.is_object-object, J.find-object, J.as_string-string, r.parse-dump)

  -- An assistant's message, with a text or without one, with tool calls or without any, is read back
  -- as it was.
  pub openai_round_trip :
      (calls : List (ToolCall Value)) (content : Text)
      → parse_openai_message J (message_to_openai_json J (assistant_tool_calls calls content))
        ≡ ok (assistant_tool_calls calls content)
  unfolding message_to_openai_json parse_openai_message text_message calls_message parse_text
      parse_calls content_or_empty
  openai_round_trip [] content = simp (J.find-object, J.as_string-string, J.is_null-string)
  openai_round_trip (c ∷ calls) [] =
      let all = traverse-map (parse_call J) (call_to_json J) (c ∷ calls) call_round_trip in
      simp (J.find-object, J.is_null-array, J.is_null-null, J.elements-array, all)
  openai_round_trip (c ∷ calls) (b ∷ content) =
      let all = traverse-map (parse_call J) (call_to_json J) (c ∷ calls) call_round_trip in
      simp (
        J.find-object, J.is_null-array, J.is_null-string, J.elements-array, all, J.as_string-string,
      )
