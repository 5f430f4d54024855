-- ===== src/Base/Http.antt =====
-- cpr, which is not part of the repository. Its calls are parameters of the definitions that make
-- them: what is sent, and the response that comes back. A call that fails has the status code 0.
use Prim.Native.Nat.{ℕ}
use mathlib.Core.Option.{Option}
use langchain_cpp.Base.Text.{Text}
use langchain_cpp.Base.Dict.{Dict}

-- cpr::Response; a header is found under its name in any case, which `header` is the look-up of.
pub record Response : Type 0 where
  pub status_code : ℕ
  pub body : Text
  pub header : Text → Option Text

-- cpr::Post and cpr::Put, for the URL, the headers and the body
abbrev pub Send : Type 0 → Type 0
Send W = Text → Dict Text → Text → W → Response × W
