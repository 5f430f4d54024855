-- ===== src/Core/Dotenv.antt =====
-- src/core/dotenv.cpp. The environment is the process's, as setenv and getenv see it; a file that
-- does not open is `none`. Values with a NUL byte, which c_str() cuts short, are outside the model.
pub mod Laws
use langchain_cpp.Base.{
  ℕ, Bool, true, false, ◌&&◌, ◌||◌, List, [], ◌∷◌, ◌++◌, Option, none, some, ◌==◌, if◌then◌else◌,
  is_empty,
}
use langchain_cpp.Base.Dict.{Dict, lookup}
use langchain_cpp.Base.Text.{Text, break_at}

-- a byte of " \t\r\n"
abbrev pub is_blank : ℕ → Bool
is_blank c = c == b' ' || c == b'\t' || c == b'\r' || c == b'\n'

-- s.substr(s.find_first_not_of(blanks))
unfoldable pub trim_start : Text → Text
trim_start [] = []
trim_start (c ∷ s) = if is_blank c then trim_start s else c ∷ s

-- s.substr(0, s.find_last_not_of(blanks) + 1)
unfoldable pub trim_end : Text → Text
trim_end [] = []
trim_end (c ∷ s) = let rest = trim_end s in if is_empty rest && is_blank c then [] else c ∷ rest

unfoldable pub trim : Text → Text
unfolding trim_start trim_end
trim s = trim_end (trim_start s)

-- `s` without its last byte `q`, if that is its last byte
unquote_end : ℕ → Text → Option Text
unquote_end q [] = none
unquote_end q (c ∷ []) = if c == q then some [] else none
unquote_end q (c ∷ d ∷ s) = elim (unquote_end q (d ∷ s)) [ none ↦ none | some r ↦ some (c ∷ r) ]

abbrev or_self : Option Text → Text → Text
or_self none s = s
or_self (some r) s = r

-- The last byte is another one than the first: a single quote stays.
unfoldable pub strip_quotes : Text → Text
unfolding unquote_end
strip_quotes [] = []
strip_quotes (c ∷ s) = if c == b'"' || c == b'\'' then or_self (unquote_end c s) (c ∷ s) else c ∷ s

-- std::getline until the stream ends: the lines, the last one also where no newline ends it
unfoldable pub add_to_first : ℕ → List Text → List Text
add_to_first c [] = (c ∷ []) ∷ []
add_to_first c (l ∷ ls) = (c ∷ l) ∷ ls

unfoldable pub lines : Text → List Text
unfolding add_to_first
lines [] = []
lines (c ∷ s) = let rest = lines s in if c == b'\n' then [] ∷ rest else add_to_first c rest

-- The assignment on a line; none where the loop goes on without one.
assignment : Text → Option (Text × Text)
assignment [] = none
assignment (c ∷ s) = if c == b'#' then none else elim (break_at b'=' (c ∷ s)) [
  | none ↦ none
  | some (before, after) ↦
      if is_empty (trim before) then none else some (trim before, strip_quotes (trim after))
]

unfoldable pub parse_line : Text → Option (Text × Text)
unfolding assignment
parse_line line = assignment (trim line)

-- setenv(key, value, 0)
unfoldable pub setenv : Text → Text → Dict Text → Dict Text
setenv key value env = elim (lookup key env) [ none ↦ env ++ (key, value) ∷ [] | some old ↦ env ]

abbrev set_assignment : Option (Text × Text) → Dict Text → Dict Text
set_assignment none env = env
set_assignment (some (key, value)) env = setenv key value env

load_lines : List Text → Dict Text → Dict Text
load_lines [] env = env
load_lines (line ∷ rest) env = load_lines rest (set_assignment (parse_line line) env)

unfoldable pub load_dotenv : Option Text → Dict Text → Dict Text
unfolding load_lines
load_dotenv none env = env
load_dotenv (some file) env = load_lines (lines file) env
