-- ===== src/Providers/Gemini/Chat.antt =====
-- src/providers/google/gemini_chat.cpp, over a parameter for cpr::Post. A temperature is the JSON
-- number that holds the double.
use langchain_cpp.Base.{not, List, [], ◌∷◌, ◌++◌, Option, none, some, ◌==◌, if◌then◌else◌, is_empty}
use langchain_cpp.Base.Text.{Text, codes}
use langchain_cpp.Base.Dict.{Dict}
use langchain_cpp.Base.Http.{Response, Send}
use langchain_cpp.Base.Json.{Json, Integer}
use langchain_cpp.Base.Outcome.{Outcome, ok, throws, ◌>>=◌}
use langchain_cpp.Base.Exec.{Exec}
use langchain_cpp.Core.Message.{Message}
use langchain_cpp.Llm.ChatModel.{ChatModel, default_stream}
use langchain_cpp.Tools.Registry.{ToolRegistry, to_gemini_tools_json}
use langchain_cpp.Providers.Config.{resolve_from, failed_request, tools_member, integer_member}
use langchain_cpp.Providers.Gemini.{GeminiRequest, messages_to_gemini_request, parse_gemini_message}

pub record GeminiConfig (V : Type 0) : Type 0 where
  pub model : Text
  pub api_key : Text
  pub base_url : Text
  pub temperature : V
  pub max_output_tokens : Option Integer

pub record GeminiChat (V W : Type 0) : Type 0 where
  pub config : GeminiConfig V
  pub tools : Option (ToolRegistry V W)

-- `env` is what getenv finds.
abbrev pub resolve_api_key : Option Text → Text → Outcome Text
resolve_api_key env =
    resolve_from env (codes "GeminiChat: no api_key provided and GOOGLE_API_KEY is not set")

-- The constructor.
abbrev pub gemini_chat : {V W : Type 0} → Option Text → GeminiConfig V → Outcome (GeminiChat V W)
gemini_chat env config = resolve_api_key env config.api_key >>= λ key.
    ok (record { config = record config { api_key = key }; tools = none })

abbrev pub bind_tools : {V W : Type 0} → GeminiChat V W → ToolRegistry V W → GeminiChat V W
bind_tools chat registry = record chat { tools = some registry }

module _ (J : Json) where
  open J use {Value, array, object, string, dump, parse}

  abbrev pub instruction_member : Text → Dict Value
  instruction_member instruction =
      if not (is_empty instruction)
      then (
        codes "systemInstruction",
        object
            ((codes "parts", array (object ((codes "text", string instruction) ∷ []) ∷ [])) ∷ []),
      )
        ∷ []
      else []

  unfoldable pub request_body : {W : Type 0} → GeminiChat Value W → GeminiRequest Value → Value
  request_body chat request = object (
      (codes "contents", array request.contents)
      ∷ (
        codes "generationConfig",
        object (
            (codes "temperature", chat.config.temperature)
            ∷ integer_member J (codes "maxOutputTokens") chat.config.max_output_tokens),
      )
      ∷ (instruction_member request.system_instruction
          ++ tools_member J chat.tools (to_gemini_tools_json J)))

  unfoldable pub reply : Response → Outcome (Message Value)
  reply response =
      if not (response.status_code == 200)
      then throws (failed_request (codes "GeminiChat: request") response)
      else (parse response.body >>= parse_gemini_message J)

  module _ {W : Type 0} (post : Send W) (chat : GeminiChat Value W) where
    unfoldable pub send : Outcome (GeminiRequest Value) → Exec W (Message Value)
    unfolding reply request_body
    send (throws e) w = (throws e, w)
    send (ok request) w =
        let (response, w') =
          post
            (chat.config.base_url
              ++ (codes "/models/" ++ (chat.config.model ++ codes ":generateContent")))
            ((codes "x-goog-api-key", chat.config.api_key)
              ∷ (codes "Content-Type", codes "application/json")
              ∷ [])
            (dump (request_body chat request)) w in
        (reply response, w')

    -- GeminiChat::invoke
    unfoldable pub invoke : List (Message Value) → Exec W (Message Value)
    unfolding send
    invoke messages = send (messages_to_gemini_request J messages)

    abbrev pub chat_model : ChatModel Value W
    chat_model = record {
      model_name = chat.config.model;
      invoke = invoke;
      stream = default_stream invoke;
    }
