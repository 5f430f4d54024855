-- ===== src/Base/Text.antt =====
-- std::string as a list of byte values.
use Prim.Native.Nat.{ℕ, suc, ◌+◌, ◌<◌, ◌≤◌}
use Prim.Native.Char.{code}
use Prim.Native.String.{String}
use mathlib.Core.Path.{◌≡◌, refl, ap}
use mathlib.Core.Logic.{◌↔◌, inl, inr}
use mathlib.Core.Bool.{Bool, true, false, ◌&&◌}
use mathlib.Core.List.{List, [], ◌∷◌, ◌++◌}
use mathlib.Core.Option.{Option, none, some}
use native.Mathlib.Omega.{arith}
use langchain_cpp.Base.Lists.{length, length-append, All}
use langchain_cpp.Base.Tests.{◌==◌, if◌then◌else◌, Option-cases}

abbrev pub Text : Type 0
Text = List ℕ

-- A literal: its code points, which are its bytes where it is ASCII.
abbrev pub codes : String → Text
codes String.[] = []
codes (String.◌∷◌ c s) = code c ∷ codes s

-- The bytes of the chunks that a stream gives.
abbrev pub bytes : List Text → Text
bytes [] = []
bytes (chunk ∷ chunks) = chunk ++ bytes chunks

-- operator== on std::string
abbrev pub text_eq : Text → Text → Bool
text_eq [] [] = true
text_eq (x ∷ xs) (y ∷ ys) = x == y && text_eq xs ys
text_eq _ _ = false

pub text_eq_iff : (a b : Text) → (text_eq a b ≡ true) ↔ (a ≡ b)
text_eq_iff (x ∷ a) (y ∷ b) = ground (arith, text_eq_iff a b)
text_eq_iff _ _ = ground arith

pub text_eq_refl : (a : Text) → text_eq a a ≡ true
text_eq_refl a = (text_eq_iff a a).1 refl

-- No byte of the text is `c`.
abbrev pub Lacks : ℕ → Text → Type 0
Lacks c = All (λ x. (x == c) ≡ false)

-- s.find(c), with the two substr calls that follow it: what stands before the first `c`, and what
-- stands behind it.
unfoldable pub break_at : ℕ → Text → Option (Text × Text)
break_at c [] = none
break_at c (x ∷ xs) =
    if x == c
    then some ([], xs)
    else elim (break_at c xs) [ none ↦ none | some (a, b) ↦ some (x ∷ a, b) ]

pub break_at-append : (c : ℕ) (a b : Text) → Lacks c a → break_at c (a ++ (c ∷ b)) ≡ some (a, b)
unfolding break_at
break_at-append c [] b h = ground arith
break_at-append c (x ∷ a) b h = ground (arith, break_at-append c a b h.1)

pub break_at-Lacks : (c : ℕ) (s : Text) → Lacks c s → break_at c s ≡ none
unfolding break_at
break_at-Lacks c [] h = refl
break_at-Lacks c (x ∷ s) h = ground (arith, break_at-Lacks c s h.1)

-- What a successful search says of the text.
pub break_at_sound :
    (c : ℕ) (s : Text) {a b : Text} → break_at c s ≡ some (a, b) → (s ≡ a ++ (c ∷ b)) × Lacks c a
unfolding break_at
break_at_sound c [] h = ground arith
break_at_sound c (x ∷ s) {a} {b} h = elim (Option-cases (break_at c s)) [
  | inl e ↦ ground arith
  | inr ((a', b'), e) ↦ ground (arith, break_at_sound c s {a = a'} {b = b'} e)
]

pub length-break_at :
    (c : ℕ) (s : Text) {a b : Text}
    → break_at c s ≡ some (a, b)
    → length s ≡ suc (length a + length b)
unfolding break_at
length-break_at c [] h = ground arith
length-break_at c (x ∷ s) {a} {b} h = elim (Option-cases (break_at c s)) [
  | inl e ↦ ground arith
  | inr ((a', b'), e) ↦ ground (arith, length-break_at c s {a = a'} {b = b'} e)
]

-- s.rfind(p, 0) == 0, with the substr behind the prefix.
unfoldable pub strip_prefix : Text → Text → Option Text
strip_prefix [] s = some s
strip_prefix (p ∷ ps) [] = none
strip_prefix (p ∷ ps) (x ∷ xs) = if p == x then strip_prefix ps xs else none

pub strip_prefix-append : (p s : Text) → strip_prefix p (p ++ s) ≡ some s
unfolding strip_prefix
strip_prefix-append [] s = refl
strip_prefix-append (x ∷ p) s = ground (arith, strip_prefix-append p s)

pub strip_prefix_sound : (p s : Text) {r : Text} → strip_prefix p s ≡ some r → s ≡ p ++ r
unfolding strip_prefix
strip_prefix_sound [] s h = ground arith
strip_prefix_sound (x ∷ p) [] h = ground arith
strip_prefix_sound (x ∷ p) (y ∷ s) {r} h = ground (arith, strip_prefix_sound p s {r = r})

-- s.find(p) for a text, with the two substr calls that follow it.
unfoldable pub break_on : Text → Text → Option (Text × Text)
break_on p [] = elim (strip_prefix p []) [ none ↦ none | some r ↦ some ([], r) ]
break_on p (x ∷ xs) = elim (strip_prefix p (x ∷ xs)) [
  | some r ↦ some ([], r)
  | none ↦ elim (break_on p xs) [ none ↦ none | some (a, b) ↦ some (x ∷ a, b) ]
]

strip_prefix_ne :
    (c : ℕ) (p : Text) (x : ℕ) (s : Text) → (x == c) ≡ false → strip_prefix (c ∷ p) (x ∷ s) ≡ none
unfolding strip_prefix
strip_prefix_ne c p x s h = ground arith

-- A text is found behind one that lacks its first byte.
pub break_on-append :
    (c : ℕ) (p a b : Text) → Lacks c a → break_on (c ∷ p) (a ++ ((c ∷ p) ++ b)) ≡ some (a, b)
unfolding break_on
break_on-append c p [] b h = ground (arith, strip_prefix-append (c ∷ p) b)
break_on-append c p (x ∷ a) b h =
    ground (arith, break_on-append c p a b h.1, strip_prefix_ne c p x (a ++ ((c ∷ p) ++ b)))

-- A text is not found in one that lacks its first byte.
pub break_on-Lacks : (c : ℕ) (p s : Text) → Lacks c s → break_on (c ∷ p) s ≡ none
unfolding break_on strip_prefix
break_on-Lacks c p [] h = refl
break_on-Lacks c p (x ∷ s) h = ground (arith, break_on-Lacks c p s h.1)

-- What a successful search says of the text.
pub break_on_sound : (p s : Text) {a b : Text} → break_on p s ≡ some (a, b) → s ≡ a ++ (p ++ b)
unfolding break_on
break_on_sound p [] {a} {b} h = elim (Option-cases (strip_prefix p [])) [
  | inl e ↦ ground arith
  | inr (r, e) ↦ ground (arith, strip_prefix_sound p [] e)
]
break_on_sound p (x ∷ s) {a} {b} h = elim (Option-cases (strip_prefix p (x ∷ s))) [
  | inr (r, e) ↦ ground (arith, strip_prefix_sound p (x ∷ s) e)
  | inl e ↦ elim (Option-cases (break_on p s)) [
    | inl e' ↦ ground arith
    | inr ((a', b'), e') ↦ ground (arith, break_on_sound p s {a = a'} {b = b'} e')
  ]
]

strip_prefix_before :
    (p s r : Text) {t : Text} → strip_prefix p s ≡ some t → strip_prefix p (s ++ r) ≡ some (t ++ r)
unfolding strip_prefix
strip_prefix_before [] s r h = ground arith
strip_prefix_before (x ∷ p) [] r h = ground arith
strip_prefix_before (x ∷ p) (y ∷ s) r {t} h = ground (arith, strip_prefix_before p s r {t = t})

strip_prefix-none : (p s r : Text) → strip_prefix p (s ++ r) ≡ none → strip_prefix p s ≡ none
strip_prefix-none p s r h = elim (Option-cases (strip_prefix p s)) [
  | inl e ↦ e
  | inr (t, e) ↦ ground (arith, strip_prefix_before p s r e)
]

-- What stands before the first occurrence has none.
pub break_on_first :
    (c : ℕ) (p s : Text) {a b : Text} → break_on (c ∷ p) s ≡ some (a, b) → break_on (c ∷ p) a ≡ none
unfolding break_on strip_prefix
break_on_first c p [] h = ground arith
break_on_first c p (x ∷ s) {a} {b} h = elim (Option-cases (strip_prefix (c ∷ p) (x ∷ s))) [
  | inr (r, e) ↦ ground arith
  | inl e ↦ elim (Option-cases (break_on (c ∷ p) s)) [
    | inl e' ↦ ground arith
    | inr ((a', b'), e') ↦ ground (
      arith,
      break_on_first c p s {a = a'} {b = b'} e',
      break_on_sound (c ∷ p) s {a = a'} {b = b'} e',
      strip_prefix-none (c ∷ p) (x ∷ a') ((c ∷ p) ++ b'),
    )
  ]
]

pub length-break_on :
    (c : ℕ) (p s : Text) {a b : Text} → break_on (c ∷ p) s ≡ some (a, b) → length b < length s
length-break_on c p s {a} {b} h = ground (
  arith,
  ap length (break_on_sound (c ∷ p) s {a = a} {b = b} h),
  length-append a ((c ∷ p) ++ b),
  length-append (c ∷ p) b,
)

strip_prefix_far :
    (p s r : Text) → length p ≤ length s → strip_prefix p s ≡ none → strip_prefix p (s ++ r) ≡ none
unfolding strip_prefix
strip_prefix_far [] s r h e = ground arith
strip_prefix_far (x ∷ p) [] r h e = ground arith
strip_prefix_far (x ∷ p) (y ∷ s) r h e = ground (arith, strip_prefix_far p s r)

length-break_on_le : (p s : Text) {a b : Text} → break_on p s ≡ some (a, b) → length p ≤ length s
length-break_on_le p s {a} {b} h = omega (
  arith,
  ap length (break_on_sound p s {a = a} {b = b} h),
  length-append a (p ++ b),
  length-append p b,
)

-- Text that follows does not change what is found.
pub break_on_before :
    (c : ℕ) (p s r : Text) {a b : Text}
    → break_on (c ∷ p) s ≡ some (a, b)
    → break_on (c ∷ p) (s ++ r) ≡ some (a, b ++ r)
unfolding break_on strip_prefix
break_on_before c p [] r {a} {b} h = ground arith
break_on_before c p (x ∷ s) r {a} {b} h = elim (Option-cases (strip_prefix (c ∷ p) (x ∷ s))) [
  | inr (t, e) ↦ ground (arith, strip_prefix_before (c ∷ p) (x ∷ s) r e)
  | inl e ↦ elim (Option-cases (break_on (c ∷ p) s)) [
    | inl e' ↦ ground arith
    | inr ((a', b'), e') ↦ ground (
      arith,
      break_on_before c p s r {a = a'} {b = b'} e',
      strip_prefix_far (c ∷ p) (x ∷ s) r (omega (arith, length-break_on_le (c ∷ p) s e')) e,
    )
  ]
]

pub break_at_before :
    (c : ℕ) (s r : Text) {a b : Text}
    → break_at c s ≡ some (a, b)
    → break_at c (s ++ r) ≡ some (a, b ++ r)
unfolding break_at
break_at_before c [] r h = ground arith
break_at_before c (x ∷ s) r {a} {b} h = elim (Option-cases (break_at c s)) [
  | inl e ↦ ground arith
  | inr ((a', b'), e) ↦ ground (arith, break_at_before c s r {a = a'} {b = b'} e)
]
