-- ===== src/Parsers/Json.antt =====
-- include/langchain/parsers/json_parser.hpp, string_parser.hpp, structured_parser.hpp and
-- src/parsers/json_parser.cpp.
pub mod Extraction
use langchain_cpp.Base.{ℕ, Bool, ◌||◌, [], ◌∷◌, ◌++◌, Option, none, some, ◌==◌, if◌then◌else◌}
use langchain_cpp.Base.Json.{Json}
use langchain_cpp.Base.Outcome.{Outcome, throws, ◌>>=◌}
use langchain_cpp.Base.Text.{Text, codes, break_at, break_on}
use langchain_cpp.Core.Message.{Message}

abbrev pub fence : Text
fence = codes "```"

-- The text between the first line that begins a fence and the next fence.
strip_code_fence : Text → Text
strip_code_fence text = elim (break_on fence text) [
  | none ↦ text
  | some (before, opened) ↦ elim (break_at b'\n' opened) [
    | none ↦ text
    | some (language, content) ↦ elim (break_on fence content) [
      | none ↦ text
      | some (inside, after) ↦ inside
    ]
  ]
]

abbrev pub is_opener : ℕ → Bool
is_opener c = c == b'{' || c == b'['

abbrev pub is_closer : ℕ → Bool
is_closer c = c == b'}' || c == b']'

-- s.substr(s.find_first_of("{["))
from_opener : Text → Option Text
from_opener [] = none
from_opener (c ∷ s) = if is_opener c then some (c ∷ s) else from_opener s

-- s.substr(0, s.find_last_of("}]") + 1)
to_closer : Text → Option Text
to_closer [] = none
to_closer (c ∷ s) = elim (to_closer s) [
  | some r ↦ some (c ∷ r)
  | none ↦ if is_closer c then some (c ∷ []) else none
]

abbrev no_json : Text → Text
no_json text = codes "extract_json: no JSON object/array found in: " ++ text

module _ (J : Json) where
  open J use {Value, parse}

  -- extract_json. A last closer in front of the first opener is none behind it.
  pub extract_json : Text → Outcome Value
  unfolding strip_code_fence from_opener to_closer
  extract_json text = elim (from_opener (strip_code_fence text)) [
    | none ↦ throws (no_json text)
    | some opened ↦ elim (to_closer opened) [
      | none ↦ throws (no_json text)
      | some candidate ↦ parse candidate
    ]
  ]

  -- JsonOutputParser::invoke
  pub json_output_parser : Message Value → Outcome Value
  json_output_parser message = extract_json message.content

  -- StructuredOutputParser<T>::invoke, on the from_json of T
  pub structured_output_parser : {T : Type 0} → (Value → Outcome T) → Message Value → Outcome T
  structured_output_parser get message = extract_json message.content >>= get

-- StrOutputParser::invoke
pub str_output_parser : {V : Type 0} → Message V → Text
str_output_parser message = message.content
