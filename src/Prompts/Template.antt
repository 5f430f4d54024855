-- ===== src/Prompts/Template.antt =====
-- include/langchain/prompts/prompt_template.hpp and src/prompts/prompt_template.cpp. The loop over the
-- position is a recursion on the text behind it, on fuel; a round passes at least one byte, so the
-- length of the template is enough.
pub mod Pieces
use langchain_cpp.Base.{
  ℕ, zero, suc, List, [], ◌∷◌, ◌++◌, Option, none, some, length, ◌==◌, if◌then◌else◌,
}
use langchain_cpp.Base.Dict.{Dict, lookup}
use langchain_cpp.Base.Text.{Text, break_at}

abbrev pub PromptValues : Type 0
PromptValues = Dict Text

-- The value of a key, or the placeholder itself where the key is not known.
abbrev pub substitute : PromptValues → Text → Text
substitute values key = elim (lookup key values) [ some v ↦ v | none ↦ b'{' ∷ (key ++ b'}' ∷ []) ]

render_from : ℕ → Text → PromptValues → Text
render_from zero s values = []
render_from (suc fuel) [] values = []
render_from (suc fuel) (c ∷ s) values =
    let rest = c ∷ render_from fuel s values in
    if c == b'{'
    then elim (break_at b'}' s) [
      | none ↦ c ∷ s
      | some (key, after) ↦ substitute values key ++ render_from fuel after values
    ]
    else rest

pub render_template : Text → PromptValues → Text
unfolding render_from
render_template template values = render_from (length template) template values
