-- ===== src/Mcp/StdioTransport.antt =====
-- src/mcp/stdio_transport.cpp: the calls that move bytes, and the destructor. The answers of read(),
-- write() and waitpid() are lists; when they are used up, read() is at the end of the file, write()
-- takes all it is given, and waitpid() finds the child running.
pub mod Lines
pub mod Sending
use langchain_cpp.Base.{
  ℕ, zero, suc, Bool, true, false, not, List, [], ◌∷◌, ◌++◌, Option, none, some, if◌then◌else◌,
  is_empty, take, drop,
}
use langchain_cpp.Base.Text.{Text, codes, break_at}
use langchain_cpp.Base.Outcome.{Outcome, ok, throws}
use langchain_cpp.Mcp.Sse.{drop_return}

-- n > 0 with the bytes read; n < 0 with errno EINTR, or with another, which strerror describes
pub data Read : Type 0 where
  chunk : Text → Read
  interrupted : Read
  failed : Text → Read

-- read_buffer_, and what read() answers from here on
pub record Input : Type 0 where
  pub read_buffer : Text
  pub reads : List Read

abbrev pub after_read : Text → List Read → Input
after_read buffer reads = record { read_buffer = buffer; reads = reads }

-- A line in the buffer is returned; else the loop goes on.
abbrev pub line_or :
    Option (Text × Text) → List Read → Outcome (Option Text) × Input → Outcome (Option Text) × Input
line_or none reads next = next
line_or (some (line, rest)) reads next = (ok (some (drop_return line)), after_read rest reads)

-- At the end of the file.
abbrev pub last_line : Text → Outcome (Option Text) × Input
last_line buffer =
    if not (is_empty buffer)
    then (ok (some buffer), after_read [] [])
    else (ok none, after_read buffer [])

-- The loop of read_line.
unfoldable pub read_from : List Read → Text → Outcome (Option Text) × Input
read_from [] buffer = line_or (break_at b'\n' buffer) [] (last_line buffer)
read_from (interrupted ∷ reads) buffer =
    line_or (break_at b'\n' buffer) (interrupted ∷ reads) (read_from reads buffer)
read_from (failed message ∷ reads) buffer =
    line_or (break_at b'\n' buffer) (failed message ∷ reads)
      (throws (codes "StdioTransport: read() failed: " ++ message), after_read buffer reads)
read_from (chunk bytes ∷ reads) buffer =
    line_or (break_at b'\n' buffer) (chunk bytes ∷ reads) (read_from reads (buffer ++ bytes))

-- StdioTransport::read_line
unfoldable pub read_line : Input → Outcome (Option Text) × Input
unfolding read_from
read_line s = read_from s.reads s.read_buffer

-- The number of bytes written, or errno as above.
pub data Write : Type 0 where
  wrote : ℕ → Write
  write_interrupted : Write
  write_failed : Text → Write

-- What has gone through the pipe, and what write() answers from here on
pub record Output : Type 0 where
  pub sent : Text
  pub writes : List Write

-- The loop of write_line, with the bytes that are left to write.
unfoldable pub write_from : List Write → Text → Text → Outcome (Unit {0}) × Output
write_from writes [] sent = (ok tt, record { sent = sent; writes = writes })
write_from [] left sent = (ok tt, record { sent = sent ++ left; writes = [] })
write_from (write_interrupted ∷ writes) left sent = write_from writes left sent
write_from (write_failed message ∷ writes) left sent = (
  throws (codes "StdioTransport: write() failed: " ++ message),
  record { sent = sent; writes = writes },
)
write_from (wrote n ∷ writes) left sent = write_from writes (drop n left) (sent ++ take n left)

-- StdioTransport::write_line
unfoldable pub write_line : Text → Output → Outcome (Unit {0}) × Output
unfolding write_from
write_line line s = write_from s.writes (line ++ b'\n' ∷ []) s.sent

-- The destructor's calls.
pub data SystemCall : Type 0 where
  close_stdin close_stdout poll sleep kill wait : SystemCall

-- Whether each waitpid with WNOHANG finds that the child has exited.
abbrev pub polled : Bool → List SystemCall × Bool → List SystemCall × Bool
polled true rest = (poll ∷ [], true)
polled false (calls, exited) = (poll ∷ sleep ∷ calls, exited)

-- The loop of the destructor, with the rounds that are left: its calls, and `exited`.
unfoldable pub wait_exited : ℕ → List Bool → List SystemCall × Bool
wait_exited zero answers = ([], false)
wait_exited (suc n) [] = polled false (wait_exited n [])
wait_exited (suc n) (exited ∷ answers) = polled exited (wait_exited n answers)

-- kill and waitpid after the loop
abbrev pub kill_unless : List SystemCall × Bool → List SystemCall
kill_unless (calls, exited) = if exited then calls else calls ++ kill ∷ wait ∷ []

-- close_if_open on both ends
abbrev pub close_if_open : Bool → SystemCall → List SystemCall
close_if_open is_open call = if is_open then call ∷ [] else []

-- StdioTransport::~StdioTransport: whether the two ends are open, and whether there is a child.
unfoldable pub destroy : Bool → Bool → Bool → List Bool → List SystemCall
unfolding wait_exited
destroy stdin_open stdout_open has_child answers =
    close_if_open stdin_open close_stdin
    ++ (close_if_open stdout_open close_stdout
        ++ (if has_child then kill_unless (wait_exited 25 answers) else []))
