-- ===== src/Tools/Registry.antt =====
-- include/langchain/tools/tool_registry.hpp and src/tools/tool_registry.cpp.
pub mod Laws
use langchain_cpp.Base.{Bool, List, [], ◌∷◌, ◌++◌, Option, none, some, map}
use langchain_cpp.Base.Text.{Text, codes}
use langchain_cpp.Base.Dict.{Dict, lookup, insert}
use langchain_cpp.Base.Json.{Json}
use langchain_cpp.Base.Outcome.{Outcome, ok, throws}
use langchain_cpp.Tools.Tool.{Tool}

pub record ToolRegistry (V W : Type 0) : Type 0 where
  pub tools : List (Tool V W)
  pub by_name : Dict (Tool V W)

module _ {V W : Type 0} where
  abbrev pub empty_registry : ToolRegistry V W
  empty_registry = record { tools = []; by_name = [] }

  -- The name is not registered, so emplace inserts.
  pub add : Tool V W → ToolRegistry V W → Outcome (ToolRegistry V W)
  add tool r = elim (lookup tool.name r.by_name) [
    | none ↦ ok (record { tools = r.tools ++ tool ∷ []; by_name = insert tool.name tool r.by_name })
    | some old ↦
        throws
          (codes "ToolRegistry: a tool named '" ++ (tool.name ++ codes "' is already registered"))
  ]

  -- a null pointer is `none`
  unfoldable pub get : Text → ToolRegistry V W → Option (Tool V W)
  get name r = lookup name r.by_name

module _ (J : Json) {W : Type 0} where
  open J use {Value, array, object, string}

  unfoldable pub openai_tool_json : Tool Value W → Value
  openai_tool_json t = object (
      (codes "type", string (codes "function"))
      ∷ (
        codes "function",
        object (
            (codes "name", string t.name)
            ∷ (codes "description", string t.description)
            ∷ (codes "parameters", t.parameters_schema)
            ∷ []),
      )
      ∷ [])

  unfoldable pub to_openai_tools_json : ToolRegistry Value W → Value
  to_openai_tools_json r = array (map openai_tool_json r.tools)

  anthropic_tool_json : Tool Value W → Value
  anthropic_tool_json t = object (
      (codes "name", string t.name)
      ∷ (codes "description", string t.description)
      ∷ (codes "input_schema", t.parameters_schema)
      ∷ [])

  pub to_anthropic_tools_json : ToolRegistry Value W → Value
  to_anthropic_tools_json r = array (map anthropic_tool_json r.tools)

  gemini_tool_json : Tool Value W → Value
  gemini_tool_json t = object (
      (codes "name", string t.name)
      ∷ (codes "description", string t.description)
      ∷ (codes "parameters", t.parameters_schema)
      ∷ [])

  pub to_gemini_tools_json : ToolRegistry Value W → Value
  to_gemini_tools_json r =
      array
        (object ((codes "functionDeclarations", array (map gemini_tool_json r.tools)) ∷ []) ∷ [])
