-- ===== src/Core/Dotenv/Laws.antt =====
-- What a .env file defines.
use langchain_cpp.Base.{
  ℕ, ◌≡◌, refl, sym, ap, false, List, [], ◌∷◌, ◌++◌, Option, none, some, inl, inr, arith, ◌==◌,
  if◌then◌else◌, is_empty, append_assoc, Option-cases,
}
use langchain_cpp.Base.Dict.{Dict, lookup, lookup-append}
use langchain_cpp.Base.Text.{Text, text_eq, text_eq_iff, Lacks, break_at-append}
use langchain_cpp.Core.Dotenv.{
  is_blank, trim_start, trim_end, trim, strip_quotes, unquote_end, lines, assignment, parse_line,
  setenv, load_lines, load_dotenv,
}

-- The value that the first assignment to `key` gives, of the lines in order.
abbrev pub first_assignment : Text → List Text → Option Text
first_assignment key [] = none
first_assignment key (line ∷ rest) = elim (parse_line line) [
  | none ↦ first_assignment key rest
  | some (k, v) ↦ if text_eq k key then some v else first_assignment key rest
]

abbrev pub or_then : Option Text → Option Text → Option Text
or_then none b = b
or_then (some a) b = some a

lookup-setenv :
    (key k v : Text) (env : Dict Text)
    → lookup key (setenv k v env)
      ≡ or_then (lookup key env) (if text_eq k key then some v else none)
unfolding setenv
lookup-setenv key k v env = ground (arith, lookup-append key env ((k, v) ∷ []), text_eq_iff k key)

load_lines_lem :
    (key : Text) (ls : List Text) (env : Dict Text)
    → lookup key (load_lines ls env) ≡ or_then (lookup key env) (first_assignment key ls)
unfolding load_lines
load_lines_lem key [] env = ground arith
load_lines_lem key (line ∷ rest) env = elim (Option-cases (parse_line line)) [
  | inl e ↦ ground (arith, load_lines_lem key rest env)
  | inr ((k, v), e) ↦
      ground (arith, load_lines_lem key rest (setenv k v env), lookup-setenv key k v env)
]

-- After loading, a variable that was set keeps its value, and any other has the value of the first
-- line of the file that assigns to it, or stays unset where none does.
pub load_dotenv_lem :
    (key file : Text) (env : Dict Text)
    → lookup key (load_dotenv (some file) env)
      ≡ or_then (lookup key env) (first_assignment key (lines file))
unfolding load_dotenv
load_dotenv_lem key file env = load_lines_lem key (lines file) env

trim_start-cons : (c : ℕ) (s : Text) → is_blank c ≡ false → trim_start (c ∷ s) ≡ c ∷ s
unfolding trim_start
trim_start-cons c s h = ground arith

is_empty-concat : (s : Text) (c : ℕ) → is_empty (s ++ c ∷ []) ≡ false
is_empty-concat [] c = refl
is_empty-concat (x ∷ s) c = refl

trim_end-concat : (s : Text) (c : ℕ) → is_blank c ≡ false → trim_end (s ++ c ∷ []) ≡ s ++ c ∷ []
unfolding trim_end
trim_end-concat [] c h = ground arith
trim_end-concat (x ∷ s) c h = ground (arith, trim_end-concat s c h, is_empty-concat s c)

unquote_end-concat : (s : Text) (q : ℕ) → unquote_end q (s ++ q ∷ []) ≡ some s
unfolding unquote_end
unquote_end-concat [] q = ground arith
unquote_end-concat (x ∷ []) q = ground (arith, unquote_end-concat [] q)
unquote_end-concat (x ∷ y ∷ s) q = ground (arith, unquote_end-concat (y ∷ s) q)

-- A value in double quotes, with its quotes.
abbrev pub quoted : Text → Text
quoted v = b'"' ∷ (v ++ b'"' ∷ [])

trim-ends :
    (c : ℕ) (s : Text) (d : ℕ)
    → is_blank c ≡ false
    → is_blank d ≡ false
    → trim (c ∷ (s ++ d ∷ [])) ≡ c ∷ (s ++ d ∷ [])
unfolding trim
trim-ends c s d hc hd = rw (trim_start-cons c _ hc) (trim_end-concat (c ∷ s) d hd)

strip_quotes-quoted : (v : Text) → strip_quotes (quoted v) ≡ v
unfolding strip_quotes
strip_quotes-quoted v = rw unquote_end-concat

-- A line `key="v"` assigns `v` to `key`, whatever bytes `v` holds, `=`, `#`, blanks and quotes
-- included, where the key is trimmed, holds no `=`, and does not begin with `#`.
pub parse_line-quoted :
    (k : ℕ) (ks v : Text)
    → is_blank k ≡ false
    → (k == b'#') ≡ false
    → Lacks b'=' (k ∷ ks)
    → trim (k ∷ ks) ≡ k ∷ ks
    → parse_line (k ∷ (ks ++ (b'=' ∷ quoted v))) ≡ some (k ∷ ks, v)
unfolding parse_line assignment
parse_line-quoted k ks v hk hash lacks trimmed =
    let front = ks ++ (b'=' ∷ b'"' ∷ v) in
    let whole : k ∷ (ks ++ (b'=' ∷ quoted v)) ≡ k ∷ (front ++ b'"' ∷ []) =
      ap (λ t. k ∷ t) (sym (append_assoc ks (b'=' ∷ b'"' ∷ v) (b'"' ∷ []))) in
    let same : trim (k ∷ (ks ++ (b'=' ∷ quoted v))) ≡ k ∷ (ks ++ (b'=' ∷ quoted v)) =
      rw whole (trim-ends k front b'"' hk refl) in
    rw (
      same,
      hash,
      break_at-append b'=' (k ∷ ks) (quoted v) lacks,
      trimmed,
      trim-ends b'"' v b'"' refl refl,
      strip_quotes-quoted v,
    )
