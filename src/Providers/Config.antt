-- ===== src/Providers/Config.antt =====
-- What the constructors and the requests of the chat clients share. `env` is what getenv finds.
use langchain_cpp.Base.{not, [], ◌∷◌, ◌++◌, Option, none, some, if◌then◌else◌, is_empty}
use langchain_cpp.Base.Text.{Text, codes}
use langchain_cpp.Base.Dict.{Dict}
use langchain_cpp.Base.Decimal.{to_string}
use langchain_cpp.Base.Http.{Response}
use langchain_cpp.Base.Json.{Json, Integer}
use langchain_cpp.Base.Outcome.{Outcome, ok, throws}
use langchain_cpp.Tools.Registry.{ToolRegistry}

abbrev pub or_throw : Option Text → Text → Outcome Text
or_throw none message = throws message
or_throw (some value) message = ok value

-- The configured value, or the environment's, or an exception.
abbrev pub resolve_from : Option Text → Text → Text → Outcome Text
resolve_from env message configured =
    if not (is_empty configured) then ok configured else or_throw env message

abbrev pub failed_request : Text → Response → Text
failed_request what response =
    what
    ++ (codes " failed (HTTP "
        ++ (to_string response.status_code ++ (codes "): " ++ response.body)))

module _ (J : Json) {W : Type 0} where
  open J use {Value, integer}

  -- body["tools"], where there is a registry that is not empty
  abbrev pub tools_member :
      Option (ToolRegistry Value W) → (ToolRegistry Value W → Value) → Dict Value
  tools_member none exported = []
  tools_member (some tools) exported =
      if not (is_empty tools.tools) then (codes "tools", exported tools) ∷ [] else []

-- body[key], where the option is set
abbrev pub integer_member : (J : Json) → Text → Option Integer → Dict J.Value
integer_member J key none = []
integer_member J key (some n) = (key, J.integer n) ∷ []
