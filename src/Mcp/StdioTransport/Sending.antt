-- ===== src/Mcp/StdioTransport/Sending.antt =====
-- Writing a line, and ending the child.
use langchain_cpp.Base.{
  ℕ, zero, suc, ◌≡◌, ◌≤◌, ◌+◌, refl, ap, sym, subst, ◌∙◌, Bool, true, false, ◌||◌, List, [], ◌∷◌,
  ◌++◌, take, drop, take-drop, append_assoc, append-nil, arith, if◌then◌else◌,
}
use langchain_cpp.Base.Text.{Text}
use langchain_cpp.Base.Outcome.{Outcome, ok, throws}
use langchain_cpp.Mcp.StdioTransport.{
  Write, wrote, write_interrupted, write_failed, Output, write_from, write_line, SystemCall, poll,
  kill, wait, close_stdin, close_stdout, close_if_open, wait_exited, kill_unless, destroy,
}

-- All of `text` was sent, or an exception came and the rest was not.
abbrev pub SentAll : Text → Text → Outcome (Unit {0}) × Output → Type 0
SentAll before text (ok u, s) = s.sent ≡ before ++ text
SentAll before text (throws e, s) = (rest : Text) × (before ++ text ≡ s.sent ++ rest)

sent_on :
    (before part rest text : Text) (x : Outcome (Unit {0}) × Output)
    → part ++ rest ≡ text
    → SentAll (before ++ part) rest x
    → SentAll before text x
sent_on before part rest text (ok u, s) e h =
    h ∙ append_assoc before part rest ∙ ap (λ t. before ++ t) e
sent_on before part rest text (throws what, s) e (left, h) =
    (left, sym (append_assoc before part rest ∙ ap (λ t. before ++ t) e) ∙ h)

write_from_lem :
    (writes : List Write) (text before : Text) → SentAll before text (write_from writes text before)
unfolding write_from
write_from_lem writes [] before = sym (append-nil before)
write_from_lem [] (c ∷ text) before = refl
write_from_lem (write_interrupted ∷ writes) (c ∷ text) before =
    write_from_lem writes (c ∷ text) before
write_from_lem (write_failed e ∷ writes) (c ∷ text) before = (c ∷ text, refl)
write_from_lem (wrote n ∷ writes) (c ∷ text) before =
    sent_on before (take n (c ∷ text)) (drop n (c ∷ text)) (c ∷ text)
      (write_from writes (drop n (c ∷ text)) (before ++ take n (c ∷ text))) (take-drop n (c ∷ text))
      (write_from_lem writes (drop n (c ∷ text)) (before ++ take n (c ∷ text)))

-- However many bytes each write takes and wherever interrupts come, write_line sends the line and a
-- newline behind what was sent before, or throws, and then what was sent is a first part of that.
pub write_line_lem :
    (line : Text) (s : Output) → SentAll s.sent (line ++ b'\n' ∷ []) (write_line line s)
unfolding write_line
write_line_lem line s = write_from_lem s.writes (line ++ b'\n' ∷ []) s.sent

-- The calls of a kind.
abbrev pub is_poll : SystemCall → Bool
is_poll poll = true
is_poll _ = false

abbrev pub is_kill : SystemCall → Bool
is_kill kill = true
is_kill _ = false

abbrev pub count : (SystemCall → Bool) → List SystemCall → ℕ
count p [] = 0
count p (call ∷ calls) = (if p call then 1 else 0) + count p calls

-- Whether one of the first `n` answers says that the child has exited.
abbrev pub exits_within : ℕ → List Bool → Bool
exits_within zero answers = false
exits_within (suc n) [] = false
exits_within (suc n) (exited ∷ answers) = exited || exits_within n answers

count-append :
    (p : SystemCall → Bool) (xs ys : List SystemCall) → count p (xs ++ ys) ≡ count p xs + count p ys
count-append p [] ys = omega arith
count-append p (x ∷ xs) ys = omega (arith, count-append p xs ys)

exits_within-nil : (n : ℕ) → exits_within n [] ≡ false
exits_within-nil zero = refl
exits_within-nil (suc n) = refl

wait_exited_lem :
    (n : ℕ) (answers : List Bool)
    → ((wait_exited n answers).1 ≡ exits_within n answers)
      × (count is_poll (wait_exited n answers).0 ≤ n)
      × (count is_kill (wait_exited n answers).0 ≡ 0)
unfolding wait_exited
wait_exited_lem zero answers = (refl, omega arith, refl)
wait_exited_lem (suc n) [] =
    let h = wait_exited_lem n [] in
    (h.0 ∙ exits_within-nil n, omega (arith, h.1), omega (arith, h.2))
wait_exited_lem (suc n) (true ∷ answers) = (refl, omega arith, refl)
wait_exited_lem (suc n) (false ∷ answers) =
    let h = wait_exited_lem n answers in (h.0, omega (arith, h.1), omega (arith, h.2))

-- The number of polls, and whether there is a kill.
abbrev pub Ended : ℕ → Bool → List SystemCall → Type 0
Ended n exited calls = (count is_poll calls ≤ n) × (count is_kill calls ≡ (if exited then 0 else 1))

kill_unless_lem :
    (n : ℕ) (calls : List SystemCall) (exited : Bool)
    → count is_poll calls ≤ n
    → count is_kill calls ≡ 0
    → Ended n exited (kill_unless (calls, exited))
kill_unless_lem n calls true p k = (p, k)
kill_unless_lem n calls false p k = (
  omega (arith, p, count-append is_poll calls (kill ∷ wait ∷ [])),
  omega (arith, k, count-append is_kill calls (kill ∷ wait ∷ [])),
)

-- Closing the ends is neither a poll nor a kill.
closed_first :
    (n : ℕ) (exited stdin_open stdout_open : Bool) (calls : List SystemCall)
    → Ended n exited calls
    → Ended n exited
        (close_if_open stdin_open close_stdin ++ (close_if_open stdout_open close_stdout ++ calls))
closed_first n exited true true calls (p, k) = (omega (arith, p), omega (arith, k))
closed_first n exited true false calls (p, k) = (omega (arith, p), omega (arith, k))
closed_first n exited false true calls (p, k) = (omega (arith, p), omega (arith, k))
closed_first n exited false false calls h = h

-- The destructor of a transport with a child asks at most 25 times whether it has exited, and kills it,
-- once, exactly where none of the first 25 answers says so.
pub destroy_lem :
    (stdin_open stdout_open : Bool) (answers : List Bool)
    → Ended 25 (exits_within 25 answers) (destroy stdin_open stdout_open true answers)
unfolding destroy
destroy_lem stdin_open stdout_open answers =
    let h = wait_exited_lem 25 answers in
    let x = wait_exited 25 answers in
    let y = kill_unless_lem 25 x.0 x.1 h.1 h.2 in
    closed_first 25 (exits_within 25 answers) stdin_open stdout_open (kill_unless x)
      (subst (λ exited. Ended 25 exited (kill_unless x)) h.0 y)
