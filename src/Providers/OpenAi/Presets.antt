-- ===== src/Providers/OpenAi/Presets.antt =====
-- src/providers/openai/openai_compatible_presets.cpp. `env` is what getenv finds under a name.
pub mod Keys
use langchain_cpp.Base.{[], ◌++◌, Option, none, some, if◌then◌else◌, is_empty, not}
use langchain_cpp.Base.Text.{Text, codes}
use langchain_cpp.Base.Outcome.{Outcome, ok, throws, ◌>>=◌}
use langchain_cpp.Providers.Config.{resolve_from}
use langchain_cpp.Providers.OpenAi.Chat.{OpenAiConfig, OpenAiChat, openai_chat}

unfoldable pub resolve : (Text → Option Text) → Text → Text → Text → Outcome Text
resolve env configured env_name provider =
    resolve_from (env env_name)
      (provider ++ (codes ": no api_key provided and " ++ (env_name ++ codes " is not set")))
      configured

module _ {V W : Type 0} (env : Text → Option Text) where
  -- The three configurations have the fields of OpenAIConfig.
  unfoldable pub preset : Text → Text → OpenAiConfig V → Outcome (OpenAiChat V W)
  unfolding resolve
  preset env_name provider config = resolve env config.api_key env_name provider >>= λ key.
      openai_chat (env (codes "OPENAI_API_KEY")) (record config { api_key = key })

  abbrev pub groq_chat : OpenAiConfig V → Outcome (OpenAiChat V W)
  groq_chat = preset (codes "GROQ_API_KEY") (codes "GroqChat")

  abbrev pub mistral_chat : OpenAiConfig V → Outcome (OpenAiChat V W)
  mistral_chat = preset (codes "MISTRAL_API_KEY") (codes "MistralChat")

  abbrev pub deep_seek_chat : OpenAiConfig V → Outcome (OpenAiChat V W)
  deep_seek_chat = preset (codes "DEEPSEEK_API_KEY") (codes "DeepSeekChat")
