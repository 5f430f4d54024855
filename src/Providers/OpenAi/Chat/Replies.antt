-- ===== src/Providers/OpenAi/Chat/Replies.antt =====
-- What a request gives for the service's reply.
use langchain_cpp.Base.{◌≡◌, refl, ◌++◌, false, List, [], ◌∷◌}
use langchain_cpp.Base.Text.{Text, codes}
use langchain_cpp.Base.Http.{Response, Send}
use langchain_cpp.Base.Json.{Json, RoundTrips}
use langchain_cpp.Base.Outcome.{ok}
use langchain_cpp.Core.Message.{ToolCall, Message, assistant_tool_calls}
use langchain_cpp.Providers.OpenAi.{message_to_openai_json}
use langchain_cpp.Providers.OpenAi.Messages.{openai_round_trip}
use langchain_cpp.Providers.OpenAi.Stream.{member}
use langchain_cpp.Providers.OpenAi.Chat.{
  OpenAiChat, Transfer, request_body, headers, element, reply_message, reply, invoke,
}

-- The body with that one choice.
abbrev pub completion : (J : Json) → Message J.Value → J.Value
completion J m =
    let choice : J.Value = J.object ((codes "message", message_to_openai_json J m) ∷ []) in
    J.object ((codes "choices", J.array (choice ∷ [])) ∷ [])

module _ (J : Json) (r : RoundTrips J) where
  open J use {Value}

  read_completion :
      (calls : List (ToolCall Value)) (content : Text)
      → reply_message J (completion J (assistant_tool_calls calls content))
        ≡ ok (assistant_tool_calls calls content)
  unfolding reply_message member element
  read_completion calls content = simp (
    J.is_object-object,
    J.find-object,
    J.is_array-array,
    J.elements-array,
    openai_round_trip J r calls content,
  )

  -- Where the service answers the request with status 200 and a completion of the message, the call
  -- returns the message, tool calls included, and the world is as the request left it.
  pub invoke_answered :
      {W : Type 0} (post : Send W) (transfer : Transfer W) (chat : OpenAiChat Value W)
      (messages : List (Message Value)) (calls : List (ToolCall Value)) (content : Text) (w w' : W)
      (response : Response)
      → post
          (chat.config.base_url ++ codes "/chat/completions")
          (headers J chat)
          (J.dump (request_body J false chat messages))
          w
        ≡ (response, w')
      → response.status_code ≡ 200
      → response.body ≡ J.dump (completion J (assistant_tool_calls calls content))
      → invoke J post transfer chat messages w ≡ (ok (assistant_tool_calls calls content), w')
  unfolding invoke reply
  invoke_answered post transfer chat messages calls content w w' response e s b =
      rw (e, s, b, r.parse-dump (completion J (assistant_tool_calls calls content)))
        (rw (read_completion calls content) refl)
