-- ===== src/Providers/Azure.antt =====
-- src/providers/azure/azure_openai_chat.cpp and src/providers/azure/azure_url.hpp, over parameters for
-- cpr::Post and the streaming session. A temperature is the JSON number that holds the double.
use langchain_cpp.Base.{
  Bool, true, false, List, [], ◌∷◌, ◌++◌, map, Option, none, some, ◌==◌, if◌then◌else◌, is_empty,
}
use langchain_cpp.Base.Text.{Text, codes}
use langchain_cpp.Base.Dict.{Dict}
use langchain_cpp.Base.Http.{Send}
use langchain_cpp.Base.Json.{Json, Integer}
use langchain_cpp.Base.Outcome.{Outcome, ok, throws, ◌>>=◌}
use langchain_cpp.Base.Exec.{Exec}
use langchain_cpp.Core.Message.{Message}
use langchain_cpp.Llm.ChatModel.{ChatModel, StreamCallback}
use langchain_cpp.Tools.Registry.{ToolRegistry, to_openai_tools_json}
use langchain_cpp.Providers.Config.{resolve_from, tools_member, integer_member}
use langchain_cpp.Providers.OpenAi.{message_to_openai_json}
use langchain_cpp.Providers.OpenAi.Chat.{Transfer, reply, receive, stream_member}

pub record AzureOpenAiConfig (V : Type 0) : Type 0 where
  pub deployment : Text
  pub endpoint : Text
  pub api_key : Text
  pub api_version : Text
  pub temperature : V
  pub max_tokens : Option Integer

pub record AzureOpenAiChat (V W : Type 0) : Type 0 where
  pub config : AzureOpenAiConfig V
  pub tools : Option (ToolRegistry V W)

-- `env` is what getenv finds under a name.
unfoldable pub resolve : (Text → Option Text) → Text → Text → Text → Outcome Text
resolve env configured env_name what =
    resolve_from (env env_name)
      (codes "AzureOpenAIChat: no "
        ++ (what ++ (codes " provided and " ++ (env_name ++ codes " is not set"))))
      configured

unfoldable pub strip_trailing_slash : Text → Text
strip_trailing_slash [] = []
strip_trailing_slash (c ∷ []) = if c == b'/' then [] else c ∷ []
strip_trailing_slash (c ∷ d ∷ url) = c ∷ strip_trailing_slash (d ∷ url)

abbrev pub build_azure_chat_completions_url : Text → Text → Text → Text
build_azure_chat_completions_url endpoint deployment api_version =
    endpoint
    ++ (codes "/openai/deployments/"
        ++ (deployment ++ (codes "/chat/completions?api-version=" ++ api_version)))

abbrev pub build_azure_embeddings_url : Text → Text → Text → Text
build_azure_embeddings_url endpoint deployment api_version =
    endpoint
    ++ (codes "/openai/deployments/"
        ++ (deployment ++ (codes "/embeddings?api-version=" ++ api_version)))

-- The constructor.
unfoldable pub azure_openai_chat :
    {V W : Type 0} → (Text → Option Text) → AzureOpenAiConfig V → Outcome (AzureOpenAiChat V W)
unfolding resolve strip_trailing_slash
azure_openai_chat env config =
    if is_empty config.deployment
    then throws
        (codes "AzureOpenAIChat: deployment must be set to your Azure OpenAI deployment name")
    else (resolve env config.api_key (codes "AZURE_OPENAI_API_KEY") (codes "api_key") >>= λ key.
        resolve env config.endpoint (codes "AZURE_OPENAI_ENDPOINT") (codes "endpoint")
        >>= λ endpoint. ok (record {
          config = record config { api_key = key; endpoint = strip_trailing_slash endpoint };
          tools = none;
        }))

abbrev pub bind_tools :
    {V W : Type 0} → AzureOpenAiChat V W → ToolRegistry V W → AzureOpenAiChat V W
bind_tools chat registry = record chat { tools = some registry }

module _ (J : Json) where
  open J use {Value, array, object, dump}

  unfoldable pub request_body :
      {W : Type 0} → Bool → AzureOpenAiChat Value W → List (Message Value) → Value
  request_body streaming chat messages = object (
      (codes "messages", array (map (message_to_openai_json J) messages))
      ∷ (codes "temperature", chat.config.temperature)
      ∷ (stream_member J streaming
          ++ (integer_member J (codes "max_tokens") chat.config.max_tokens
              ++ tools_member J chat.tools (to_openai_tools_json J))))

  abbrev pub headers : {W : Type 0} → AzureOpenAiChat Value W → Dict Text
  headers chat =
      (codes "api-key", chat.config.api_key) ∷ (codes "Content-Type", codes "application/json") ∷ []

  abbrev pub url_of : {W : Type 0} → AzureOpenAiChat Value W → Text
  url_of chat =
      build_azure_chat_completions_url chat.config.endpoint chat.config.deployment
        chat.config.api_version

  module _ {W : Type 0} (post : Send W) (transfer : Transfer W)
      (chat : AzureOpenAiChat Value W) where
    -- AzureOpenAIChat::invoke
    unfoldable pub invoke : List (Message Value) → Exec W (Message Value)
    unfolding request_body
    invoke messages w =
        let (response, w') =
          post (url_of chat) (headers chat) (dump (request_body false chat messages)) w in
        (reply J (codes "AzureOpenAIChat") response, w')

    -- AzureOpenAIChat::stream
    unfoldable pub stream : List (Message Value) → StreamCallback Value W → Exec W (Unit {0})
    unfolding request_body
    stream messages on_chunk w =
        receive J on_chunk (codes "AzureOpenAIChat")
          (transfer (url_of chat) (headers chat) (dump (request_body true chat messages)) w)

    abbrev pub chat_model : ChatModel Value W
    chat_model = record { model_name = chat.config.deployment; invoke = invoke; stream = stream }
