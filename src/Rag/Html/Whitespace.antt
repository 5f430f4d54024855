-- ===== src/Rag/Html/Whitespace.antt =====
-- The shape of the text that html_to_text gives.
use langchain_cpp.Base.{
  ℕ, suc, zero, Bool, true, false, not, ◌&&◌, ◌||◌, [], ◌∷◌, ◌++◌, ◌≡◌, refl, ◌==◌, ◌≤◌,
  if◌then◌else◌, is_empty, arith, All, Bool-cases, inl, inr,
}
use langchain_cpp.Base.Text.{Text, codes}
use langchain_cpp.Rag.Html.{
  collapse, newlines, is_space, is_trimmed, trim_front, trim_back, html_to_text,
  remove_elements_entirely, decode_entities, strip_tags,
}

-- Every run of `c` has at most `k` of them, and a run at the front at most `b`.
unfoldable pub runs_from : ℕ → ℕ → ℕ → Text → Bool
runs_from c k b [] = true
runs_from c k zero (x ∷ xs) = not (x == c) && runs_from c k k xs
runs_from c k (suc b) (x ∷ xs) = runs_from c k (if x == c then b else k) xs

runs_from_le :
    (c k a b : ℕ) (s : Text) → a ≤ b → runs_from c k a s ≡ true → runs_from c k b s ≡ true
unfolding runs_from
runs_from_le c k a b [] h r = ground arith
runs_from_le c k zero zero (x ∷ s) h r = r
runs_from_le c k zero (suc b) (x ∷ s) h r = elim (Bool-cases (x == c)) [
  | inl e ↦ ground arith
  | inr e ↦ ground arith
]
runs_from_le c k (suc a) zero (x ∷ s) h r = ground arith
runs_from_le c k (suc a) (suc b) (x ∷ s) h r = elim (Bool-cases (x == c)) [
  | inl e ↦ ground (arith, runs_from_le c k a b s)
  | inr e ↦ ground arith
]

newlines_runs :
    (n x : ℕ) (s : Text)
    → (x == b'\n') ≡ false
    → runs_from b'\n' 2 2 s ≡ true
    → runs_from b'\n' 2 2 (newlines n ++ x ∷ s) ≡ true
unfolding newlines runs_from
newlines_runs zero x s h r = ground arith
newlines_runs (suc zero) x s h r = ground arith
newlines_runs (suc (suc n)) x s h r = ground arith

-- No three newlines in a row.
collapse_lines :
    (text : Text) (n : ℕ)
    → (runs_from b'\n' 2 2 (collapse n false text) ≡ true)
      × (runs_from b'\n' 2 2 (collapse 0 true text) ≡ true)
unfolding collapse newlines runs_from
collapse_lines [] zero = (refl, refl)
collapse_lines [] (suc zero) = (refl, refl)
collapse_lines [] (suc (suc n)) = (refl, refl)
collapse_lines (c ∷ text) n = elim (Bool-cases (c == b'\n')) [
  | inl e ↦ ground (arith, collapse_lines text (suc n), collapse_lines text 1)
  | inr e ↦ elim (Bool-cases (is_space c)) [
    | inl d ↦ ground (arith, collapse_lines text 0, newlines_runs n b' ' (collapse 0 true text))
    | inr d ↦ ground (arith, collapse_lines text 0, newlines_runs n c (collapse 0 false text))
  ]
]

newlines_spaces :
    (n : ℕ) (s : Text)
    → runs_from b' ' 1 1 s ≡ true
    → (runs_from b' ' 1 1 (newlines n ++ s) ≡ true)
      × (runs_from b' ' 1 0 (newlines (suc n) ++ s) ≡ true)
unfolding newlines runs_from
newlines_spaces zero s r = (r, r)
newlines_spaces (suc zero) s r = (r, r)
newlines_spaces (suc (suc n)) s r = (r, r)

-- No two spaces in a row, and none at the front behind a space or a newline.
collapse_spaces :
    (text : Text) (n : ℕ)
    → (runs_from b' ' 1 1 (collapse n false text) ≡ true)
      × (runs_from b' ' 1 0 (collapse (suc n) false text) ≡ true)
      × (runs_from b' ' 1 0 (collapse 0 true text) ≡ true)
unfolding collapse newlines runs_from
collapse_spaces [] zero = (refl, refl, refl)
collapse_spaces [] (suc zero) = (refl, refl, refl)
collapse_spaces [] (suc (suc n)) = (refl, refl, refl)
collapse_spaces (c ∷ text) n = elim (Bool-cases (c == b'\n')) [
  | inl e ↦
      ground (arith, collapse_spaces text (suc n), collapse_spaces text n, collapse_spaces text 0)
  | inr e ↦ elim (Bool-cases (is_space c)) [
    | inl d ↦
        ground (arith, collapse_spaces text 0, newlines_spaces n (b' ' ∷ collapse 0 true text))
    | inr d ↦ ground (arith, collapse_spaces text 0, newlines_spaces n (c ∷ collapse 0 false text))
  ]
]

-- Neither a tab nor a carriage return.
abbrev Printed : ℕ → Type 0
Printed c = (c == b'\t' || c == b'\r') ≡ false

newlines-Printed : (n : ℕ) (s : Text) → All Printed s → All Printed (newlines n ++ s)
unfolding newlines
newlines-Printed zero s h = h
newlines-Printed (suc zero) s h = (refl, h)
newlines-Printed (suc (suc n)) s h = (refl, (refl, h))

collapse-Printed : (text : Text) (n : ℕ) (space : Bool) → All Printed (collapse n space text)
unfolding collapse newlines
collapse-Printed [] zero space = tt
collapse-Printed [] (suc zero) space = (refl, tt)
collapse-Printed [] (suc (suc n)) space = (refl, (refl, tt))
collapse-Printed (c ∷ text) n space = elim (Bool-cases (c == b'\n')) [
  | inl e ↦ ground (arith, collapse-Printed text (suc n) false)
  | inr e ↦ elim (Bool-cases (is_space c)) [
    | inl d ↦ elim (Bool-cases space) [
      | inl f ↦
          ground (arith, collapse-Printed text 0 true, newlines-Printed n (collapse 0 true text))
      | inr f ↦
          ground
            (arith, collapse-Printed text 0 true, newlines-Printed n (b' ' ∷ collapse 0 true text))
    ]
    | inr d ↦
        ground
          (arith, collapse-Printed text 0 false, newlines-Printed n (c ∷ collapse 0 false text))
  ]
]

trim_front_runs :
    (c k : ℕ) (s : Text)
    → runs_from c (suc k) (suc k) s ≡ true
    → runs_from c (suc k) (suc k) (trim_front s) ≡ true
unfolding trim_front runs_from
trim_front_runs c k [] r = r
trim_front_runs c k (x ∷ s) r = elim (Bool-cases (x == c)) [
  | inl e ↦ ground (arith, trim_front_runs c k s, runs_from_le c (suc k) k (suc k) s)
  | inr e ↦ ground (arith, trim_front_runs c k s)
]

trim_back_runs :
    (c k b : ℕ) (s : Text) → runs_from c k b s ≡ true → runs_from c k b (trim_back s) ≡ true
unfolding trim_back runs_from
trim_back_runs c k b [] r = r
trim_back_runs c k zero (x ∷ s) r = ground (arith, trim_back_runs c k k s)
trim_back_runs c k (suc b) (x ∷ s) r =
    ground (arith, trim_back_runs c k (if x == c then b else k) s)

trim_front-All : (P : ℕ → Type 0) (s : Text) → All P s → All P (trim_front s)
unfolding trim_front
trim_front-All P [] h = tt
trim_front-All P (x ∷ s) h = ground (arith, trim_front-All P s h.1)

trim_back-All : (P : ℕ → Type 0) (s : Text) → All P s → All P (trim_back s)
unfolding trim_back
trim_back-All P [] h = tt
trim_back-All P (x ∷ s) h = ground (arith, trim_back-All P s h.1)

abbrev starts_blank : Text → Bool
starts_blank [] = false
starts_blank (c ∷ s) = is_trimmed c

abbrev ends_blank : Text → Bool
ends_blank [] = false
ends_blank (c ∷ []) = is_trimmed c
ends_blank (c ∷ d ∷ s) = ends_blank (d ∷ s)

starts_blank-trim_front : (s : Text) → starts_blank (trim_front s) ≡ false
unfolding trim_front
starts_blank-trim_front [] = refl
starts_blank-trim_front (x ∷ s) = ground (arith, starts_blank-trim_front s)

starts_blank-trim_back : (s : Text) → starts_blank s ≡ false → starts_blank (trim_back s) ≡ false
unfolding trim_back
starts_blank-trim_back [] h = refl
starts_blank-trim_back (x ∷ s) h = ground arith

ends_blank-cons : (x : ℕ) (s : Text) → is_empty s ≡ false → ends_blank (x ∷ s) ≡ ends_blank s
ends_blank-cons x [] h = ground arith
ends_blank-cons x (y ∷ s) h = refl

is_empty_lem : (s : Text) → is_empty s ≡ true → s ≡ []
is_empty_lem [] h = refl
is_empty_lem (x ∷ s) h = ground arith

ends_blank-trim_back : (s : Text) → ends_blank (trim_back s) ≡ false
unfolding trim_back
ends_blank-trim_back [] = refl
ends_blank-trim_back (x ∷ s) = elim (Bool-cases (is_empty (trim_back s))) [
  | inl e ↦ elim (Bool-cases (is_trimmed x)) [
    | inl d ↦ ground (arith, is_empty_lem (trim_back s))
    | inr d ↦ rw (e, d, is_empty_lem (trim_back s) e) d
  ]
  | inr e ↦ ground (arith, ends_blank-trim_back s, ends_blank-cons x (trim_back s))
]

-- A text for the reader: no three newlines and no two spaces in a row, no tab and no carriage
-- return, and no blank at either end.
unfoldable pub Tidy : Text → Type 0
Tidy s =
    (runs_from b'\n' 2 2 s ≡ true)
    × (runs_from b' ' 1 1 s ≡ true)
    × All Printed s
    × (starts_blank s ≡ false)
    × (ends_blank s ≡ false)

tidy : (text : Text) → Tidy (trim_back (trim_front (collapse 0 false text)))
unfolding Tidy
tidy text =
    let s = collapse 0 false text in
    (
      trim_back_runs b'\n' 2 2 (trim_front s)
          (trim_front_runs b'\n' 1 s ((collapse_lines text 0).0)),
      trim_back_runs b' ' 1 1 (trim_front s)
          (trim_front_runs b' ' 0 s ((collapse_spaces text 0).0)),
      trim_back-All Printed (trim_front s)
          (trim_front-All Printed s (collapse-Printed text 0 false)),
      starts_blank-trim_back (trim_front s) (starts_blank-trim_front s),
      ends_blank-trim_back (trim_front s),
    )

-- Whatever the page, its text has no three newlines and no two spaces in a row, no tab and no carriage
-- return, and no blank at either end.
pub html_to_text-Tidy : (html : Text) → Tidy (html_to_text html)
unfolding html_to_text
html_to_text-Tidy html = tidy (
    decode_entities (
      strip_tags false [] (
        remove_elements_entirely (remove_elements_entirely html (codes "script")) (codes "style"))))
