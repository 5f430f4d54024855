-- ===== src/Providers/OpenAi/Presets/Keys.antt =====
-- Which key a preset sends.
use langchain_cpp.Base.{◌≡◌, refl, ◌++◌, [], ◌∷◌, Option, none, some}
use langchain_cpp.Base.Text.{Text, codes}
use langchain_cpp.Base.Outcome.{Outcome, ok, throws, ◌>>=◌}
use langchain_cpp.Providers.Config.{resolve_from}
use langchain_cpp.Providers.OpenAi.Chat.{OpenAiConfig, OpenAiChat, openai_chat}
use langchain_cpp.Providers.OpenAi.Presets.{resolve, preset}

-- The configured key, or that of the preset's own variable, or, where that is set to an empty text, what
-- OPENAI_API_KEY is set to.
abbrev pub sent_key : Option Text → Option Text → Text → Text → Text → Outcome Text
sent_key own other env_name provider (c ∷ key) = ok (c ∷ key)
sent_key none other env_name provider [] =
    throws (provider ++ (codes ": no api_key provided and " ++ (env_name ++ codes " is not set")))
sent_key (some (c ∷ key)) other env_name provider [] = ok (c ∷ key)
sent_key (some []) (some key) env_name provider [] = ok key
sent_key (some []) none env_name provider [] =
    throws (codes "OpenAIChat: no api_key provided and OPENAI_API_KEY is not set")

module _ {V W : Type 0} where
  -- A key that the client is to have, or the exception.
  abbrev pub with_key : OpenAiConfig V → Outcome Text → Outcome (OpenAiChat V W)
  with_key config key =
      key >>= λ k. ok (record { config = record config { api_key = k }; tools = none })

  key_lem :
      (own other : Option Text) (env_name provider configured : Text) (config : OpenAiConfig V)
      → (resolve_from own
            (provider ++ (codes ": no api_key provided and " ++ (env_name ++ codes " is not set")))
            configured
          >>= λ key. openai_chat {V = V} {W = W} other (record config { api_key = key }))
        ≡ with_key config (sent_key own other env_name provider configured)
  key_lem own other env_name provider (c ∷ configured) config = refl
  key_lem none other env_name provider [] config = refl
  key_lem (some (c ∷ key)) other env_name provider [] config = refl
  key_lem (some []) none env_name provider [] config = refl
  key_lem (some []) (some key) env_name provider [] config = refl

  -- The client of a preset has the configured key, or, where that is empty, the key of the preset's own
  -- variable, or, where that variable is set to an empty text, the key of OPENAI_API_KEY; where the
  -- variable that is asked last is not set, an exception names it.
  pub preset_lem :
      (env : Text → Option Text) (env_name provider : Text) (config : OpenAiConfig V)
      → preset env env_name provider config
        ≡ with_key config (
            sent_key (env env_name) (env (codes "OPENAI_API_KEY")) env_name provider config.api_key)
  unfolding preset resolve
  preset_lem env env_name provider config =
      key_lem (env env_name) (env (codes "OPENAI_API_KEY")) env_name provider config.api_key config
