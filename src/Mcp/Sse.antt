-- ===== src/Mcp/Sse.antt =====
-- src/mcp/http_client_transport.cpp, extract_last_sse_event_data: the data of the last event of a
-- server-sent-events body.
pub mod Events
use langchain_cpp.Base.{
  ℕ, Bool, true, false, not, List, [], ◌∷◌, ◌++◌, Option, none, some, ◌==◌, if◌then◌else◌, is_empty,
}
use langchain_cpp.Base.Text.{Text, codes, strip_prefix}

-- line.pop_back() after a carriage return
unfoldable pub drop_return : Text → Text
drop_return [] = []
drop_return (c ∷ []) = if c == 13 then [] else c ∷ []
drop_return (c ∷ d ∷ s) = c ∷ drop_return (d ∷ s)

-- The locals `last`, and `current` where have_current is set.
pub record Reading : Type 0 where
  pub last : Option Text
  pub current : Option Text

unfoldable pub finalize_event : Reading → Reading
finalize_event r = elim r.current [ none ↦ r | some c ↦ record { last = some c; current = none } ]

-- value.erase(0, 1) on a leading blank
unfoldable pub drop_blank : Text → Text
drop_blank [] = []
drop_blank (c ∷ s) = if c == 32 then s else c ∷ s

unfoldable pub append_data : Option Text → Text → Text
append_data none value = value
append_data (some c) value = c ++ 10 ∷ value

unfoldable pub read_field : Text → Reading → Reading
unfolding drop_blank append_data
read_field line r = elim (strip_prefix (codes "data:") line) [
  | none ↦ r
  | some value ↦ record r { current = some (append_data r.current (drop_blank value)) }
]

-- One line of the body.
unfoldable pub read_line : Text → Reading → Reading
unfolding drop_return finalize_event read_field
read_line line r =
    if is_empty (drop_return line) then finalize_event r else read_field (drop_return line) r

-- The lines of a body: what stands between the newlines, and behind the last.
unfoldable pub first_onto : ℕ → List Text → List Text
first_onto c [] = (c ∷ []) ∷ []
first_onto c (line ∷ lines) = (c ∷ line) ∷ lines

unfoldable pub body_lines : Text → List Text
unfolding first_onto
body_lines [] = [] ∷ []
body_lines (c ∷ s) = if c == 10 then [] ∷ body_lines s else first_onto c (body_lines s)

unfoldable pub read_lines : List Text → Reading → Reading
unfolding read_line
read_lines [] r = r
read_lines (line ∷ lines) r = read_lines lines (read_line line r)

unfoldable pub extract_last_sse_event_data : Text → Option Text
unfolding body_lines read_lines
extract_last_sse_event_data body =
    (finalize_event (read_lines (body_lines body) (record { last = none; current = none }))).last
