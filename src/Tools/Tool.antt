-- ===== src/Tools/Tool.antt =====
-- include/langchain/core/result.hpp, include/langchain/tools/tool.hpp and src/tools/function_tool.cpp.
use langchain_cpp.Base.Text.{Text}
use langchain_cpp.Base.Outcome.{Outcome, ok, throws}
use langchain_cpp.Base.Exec.{Exec}

-- core::Result<T>: a T, or an Error with its message.
pub data Result {ℓ} (T : Type ℓ) : Type ℓ where
  success : T → Result T
  failure : Text → Result T

pub record Tool (V W : Type 0) : Type 0 where
  pub name : Text
  pub description : Text
  pub parameters_schema : V
  pub call : V → Exec W (Result V)

abbrev pub caught : {V W : Type 0} → Outcome V → W → Outcome (Result V) × W
caught (ok v) w = (ok (success v), w)
caught (throws e) w = (ok (failure e), w)

module _ {V W : Type 0} where
  -- FunctionTool::call
  pub function_call : (V → Exec W V) → V → Exec W (Result V)
  function_call fn input w = let (r, w') = fn input w in caught r w'

  pub function_tool : Text → Text → (V → Exec W V) → V → Tool V W
  function_tool name description fn parameters_schema = record {
    name = name;
    description = description;
    parameters_schema = parameters_schema;
    call = function_call fn;
  }
