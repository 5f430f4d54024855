-- ===== src/Mcp/Sse/Events.antt =====
-- A body that is printed from events gives the data of the last.
use langchain_cpp.Base.{
  ◌≡◌, refl, ap, ◌∙◌, List, [], ◌∷◌, ◌++◌, Option, none, some, arith, All, append_assoc,
}
use langchain_cpp.Base.Text.{Text, codes, Lacks, strip_prefix}
use langchain_cpp.Mcp.Sse.{
  drop_return, Reading, finalize_event, drop_blank, append_data, read_field, read_line, first_onto,
  body_lines, read_lines, extract_last_sse_event_data,
}

-- A line of data: no line break in it.
abbrev pub IsPlain : Text → Type 0
IsPlain s = Lacks 10 s × Lacks 13 s

-- An event, its data as one line and those behind it.
abbrev pub Event : Type 0
Event = Text × List Text

abbrev pub data_line : Text → Text
data_line s = codes "data: " ++ s

abbrev pub print_lines : List Text → Text
print_lines [] = []
print_lines (s ∷ ss) = data_line s ++ 10 ∷ print_lines ss

abbrev pub print_event : Event → Text
print_event (s, ss) = print_lines (s ∷ ss) ++ 10 ∷ []

abbrev pub print_events : List Event → Text
print_events [] = []
print_events (e ∷ es) = print_event e ++ print_events es

-- The data of an event, its lines joined by newlines.
abbrev pub data_from : Text → List Text → Text
data_from s [] = s
data_from s (t ∷ ts) = data_from (s ++ 10 ∷ t) ts

abbrev pub data_of : Event → Text
data_of (s, ss) = data_from s ss

abbrev pub last_data : Option Text → List Event → Option Text
last_data o [] = o
last_data o (e ∷ es) = last_data (some (data_of e)) es

body_lines-append : (l s : Text) → Lacks 10 l → body_lines (l ++ 10 ∷ s) ≡ l ∷ body_lines s
unfolding body_lines first_onto
body_lines-append [] s h = refl
body_lines-append (c ∷ l) s h = ground (arith, body_lines-append l s h.1)

drop_return-Lacks : (s : Text) → Lacks 13 s → drop_return s ≡ s
unfolding drop_return
drop_return-Lacks [] h = refl
drop_return-Lacks (c ∷ []) h = ground arith
drop_return-Lacks (c ∷ d ∷ s) h = ap (λ t. c ∷ t) (drop_return-Lacks (d ∷ s) h.1)

read_line-data :
    (s : Text) (r : Reading)
    → IsPlain s
    → read_line (data_line s) r ≡ record r { current = some (append_data r.current s) }
unfolding read_line read_field drop_blank drop_return strip_prefix
read_line-data s r h = rw (drop_return-Lacks (32 ∷ s) (refl, h.1))

read_lines-data :
    (s rest : Text) (r : Reading)
    → IsPlain s
    → read_lines (body_lines (data_line s ++ 10 ∷ rest)) r
      ≡ read_lines (body_lines rest) (record r { current = some (append_data r.current s) })
unfolding read_lines
read_lines-data s rest r h =
    ap (λ ls. read_lines ls r)
      (body_lines-append (data_line s) rest (refl, (refl, (refl, (refl, (refl, (refl, h.0)))))))
    ∙ ap (λ r'. read_lines (body_lines rest) r') (read_line-data s r h)

read_lines-blank :
    (rest : Text) (r : Reading)
    → read_lines (body_lines (10 ∷ rest)) r ≡ read_lines (body_lines rest) (finalize_event r)
unfolding read_lines body_lines read_line drop_return
read_lines-blank rest r = refl

read_lines-lines :
    (s : Text) (ss : List Text) (rest : Text) (r : Reading)
    → IsPlain s
    → All IsPlain ss
    → read_lines (body_lines (print_lines (s ∷ ss) ++ 10 ∷ rest)) r
      ≡ read_lines
          (body_lines rest)
          (record { last = some (data_from (append_data r.current s) ss); current = none })
unfolding finalize_event append_data
read_lines-lines s [] rest r h hs =
    ap (λ t. read_lines (body_lines t) r) (append_assoc (data_line s) (10 ∷ []) (10 ∷ rest))
    ∙ (read_lines-data s (10 ∷ rest) r h ∙ read_lines-blank rest _)
read_lines-lines s (t ∷ ts) rest r h hs =
    ap (λ t'. read_lines (body_lines t') r)
      (append_assoc (data_line s) (10 ∷ print_lines (t ∷ ts)) (10 ∷ rest))
    ∙ (read_lines-data s (print_lines (t ∷ ts) ++ 10 ∷ rest) r h
        ∙ read_lines-lines t ts rest (record r { current = some (append_data r.current s) }) hs.0
            hs.1)

abbrev pub IsPlainEvent : Event → Type 0
IsPlainEvent (s, ss) = IsPlain s × All IsPlain ss

read_lines-events :
    (es : List Event) (o : Option Text)
    → All IsPlainEvent es
    → finalize_event
        (read_lines (body_lines (print_events es)) (record { last = o; current = none }))
      ≡ record { last = last_data o es; current = none }
unfolding finalize_event read_lines body_lines read_line drop_return append_data
read_lines-events [] o h = refl
read_lines-events ((s, ss) ∷ es) o h =
    ap (λ t. finalize_event (read_lines (body_lines t) (record { last = o; current = none })))
      (append_assoc (print_lines (s ∷ ss)) (10 ∷ []) (print_events es))
    ∙ (ap finalize_event (
          read_lines-lines s ss (print_events es) (record { last = o; current = none }) h.0.0 h.0.1)
        ∙ read_lines-events es (some (data_from s ss)) h.1)

-- Of a body that prints events, each with one or more lines of data that hold no line break, the
-- client reads the lines of the last event, joined by newlines, and nothing where there is no event.
pub extract_last_sse_event_data_lem :
    (es : List Event)
    → All IsPlainEvent es
    → extract_last_sse_event_data (print_events es) ≡ last_data none es
unfolding extract_last_sse_event_data
extract_last_sse_event_data_lem es h = ap (λ r. r.last) (read_lines-events es none h)
