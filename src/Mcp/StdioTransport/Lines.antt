-- ===== src/Mcp/StdioTransport/Lines.antt =====
-- How the bytes of the child's output are cut into reads does not matter.
use langchain_cpp.Base.{
  ◌≡◌, refl, ap, ◌∙◌, not, List, [], ◌∷◌, ◌++◌, Option, none, some, if◌then◌else◌, is_empty, All,
  append_assoc, append-nil, Option-cases, inl, inr,
}
use langchain_cpp.Base.Text.{Text, break_at, break_at_before}
use langchain_cpp.Base.Outcome.{Outcome, ok}
use langchain_cpp.Mcp.Sse.{drop_return}
use langchain_cpp.Mcp.StdioTransport.{
  Read, chunk, interrupted, failed, Input, line_or, last_line, read_from, read_line,
}

-- The bytes that reads give.
abbrev pub read_bytes : List Read → Text
read_bytes [] = []
read_bytes (chunk b ∷ reads) = b ++ read_bytes reads
read_bytes (interrupted ∷ reads) = read_bytes reads
read_bytes (failed e ∷ reads) = read_bytes reads

-- All that is yet to be returned, buffered or not.
abbrev pub pending : Input → Text
pending s = s.read_buffer ++ read_bytes s.reads

-- No read fails but by an interrupt.
abbrev pub IsReadable : Read → Type 0
IsReadable (chunk b) = Unit
IsReadable interrupted = Unit
IsReadable (failed e) = ⊥

-- A reader of one text: its first line without the newline and a carriage return before it, or the
-- rest as it is where no newline is left, or nothing where no byte is left.
abbrev pub line_of : Option (Text × Text) → Text → Option Text × Text
line_of (some (line, rest)) text = (some (drop_return line), rest)
line_of none text = if not (is_empty text) then (some text, []) else (none, [])

abbrev pub read_text : Text → Option Text × Text
read_text text = line_of (break_at b'\n' text) text

abbrev pub seen : Outcome (Option Text) × Input → Outcome (Option Text) × Text
seen (r, s) = (r, pending s)

abbrev pub found : Option Text × Text → Outcome (Option Text) × Text
found (line, rest) = (ok line, rest)

at_end :
    (o : Option (Text × Text)) (buffer : Text)
    → seen (line_or o [] (last_line buffer)) ≡ found (line_of o buffer)
at_end (some (line, rest)) buffer = rw append-nil refl
at_end none [] = refl
at_end none (c ∷ buffer) = refl

read_from_lem :
    (reads : List Read) (buffer : Text)
    → All IsReadable reads
    → seen (read_from reads buffer) ≡ found (read_text (buffer ++ read_bytes reads))
unfolding read_from
read_from_lem [] buffer h = rw append-nil (at_end (break_at b'\n' buffer) buffer)
read_from_lem (interrupted ∷ reads) buffer h = elim (Option-cases (break_at b'\n' buffer)) [
  | inl e ↦ rw e (read_from_lem reads buffer h.1)
  | inr ((line, rest), e) ↦
      rw (e, break_at_before b'\n' buffer (read_bytes reads) {a = line} {b = rest} e) refl
]
read_from_lem (failed message ∷ reads) buffer h = absurd h.0
read_from_lem (chunk b ∷ reads) buffer h = elim (Option-cases (break_at b'\n' buffer)) [
  | inl e ↦ rw e (
      read_from_lem reads (buffer ++ b) h.1
      ∙ ap (λ t. found (read_text t)) (append_assoc buffer b (read_bytes reads)))
  | inr ((line, rest), e) ↦
      rw (e, break_at_before b'\n' buffer (b ++ read_bytes reads) {a = line} {b = rest} e) refl
]

-- Where no read fails but by an interrupt, read_line returns what the reader of one text returns on
-- the bytes that the buffer and the reads hold, and leaves what that leaves, however the bytes are cut
-- into reads and wherever interrupts come.
pub read_line_lem :
    (s : Input) → All IsReadable s.reads → seen (read_line s) ≡ found (read_text (pending s))
unfolding read_line
read_line_lem s h = read_from_lem s.reads s.read_buffer h
