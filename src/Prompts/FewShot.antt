-- ===== src/Prompts/FewShot.antt =====
-- include/langchain/prompts/few_shot_prompt_template.hpp, chat_prompt_template.hpp and their sources
-- under src/prompts. An example selector, which may call an embeddings service, is a parameter.
pub mod Pieces
use langchain_cpp.Base.{List, [], ◌∷◌, ◌++◌, Option, none, some, map, if◌then◌else◌, is_empty}
use langchain_cpp.Base.Join.{join}
use langchain_cpp.Base.Exec.{Exec, pure, continue, ◌>>=◌}
use langchain_cpp.Base.Text.{Text}
use langchain_cpp.Core.Message.{Message, MessageRole, plain}
use langchain_cpp.Prompts.Template.{PromptValues, render_template}

-- ChatPromptTemplate::format
pub chat_format : {V : Type 0} → List (MessageRole × Text) → PromptValues → List (Message V)
chat_format [] values = []
chat_format ((role, template) ∷ templates) values =
    plain role (render_template template values) ∷ chat_format templates values

pub record Config (W : Type 0) : Type 0 where
  pub prefix : Text
  pub example_template : Text
  pub suffix : Text
  pub examples : List PromptValues
  pub example_selector : Option (PromptValues → Exec W (List PromptValues))
  pub example_separator : Text

module _ {W : Type 0} where
  pub pieces : Config W → List PromptValues → PromptValues → List Text
  pieces c examples values =
      (if is_empty c.prefix then [] else c.prefix ∷ [])
      ++ (map (render_template c.example_template) examples ++ render_template c.suffix values ∷ [])

  pub chosen : Config W → PromptValues → Exec W (List PromptValues)
  chosen c values = elim c.example_selector [
    | none ↦ pure c.examples
    | some select_examples ↦ select_examples values
  ]

  -- FewShotPromptTemplate::format
  pub format : Config W → PromptValues → Exec W Text
  unfolding pieces chosen
  format c values = do
    examples ← chosen c values
    pure (join c.example_separator (pieces c examples values))
