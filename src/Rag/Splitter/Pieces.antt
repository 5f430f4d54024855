-- ===== src/Rag/Splitter/Pieces.antt =====
-- src/rag/splitters/recursive_character_text_splitter.cpp, split_string: what the pieces are.
use langchain_cpp.Base.{
  append-nil, ℕ, zero, suc, ◌≤◌, ◌≡◌, refl, sym, ap, List, [], ◌∷◌, ◌++◌, none, some, inl, inr,
  arith, length, All, Option-cases,
}
use langchain_cpp.Base.Join.{join, joined_behind}
use langchain_cpp.Base.Text.{
  Text, strip_prefix, break_on, break_on_sound, break_on_first, length-break_on,
}
use langchain_cpp.Rag.Splitter.{characters, split_from, split_string}

joined_behind-characters : (s : Text) → joined_behind [] (characters s) ≡ s
unfolding joined_behind characters
joined_behind-characters [] = refl
joined_behind-characters (c ∷ s) = ground (arith, joined_behind-characters s)

join-characters : (s : Text) → join [] (characters s) ≡ s
unfolding join characters
join-characters [] = refl
join-characters (c ∷ s) = ground (arith, joined_behind-characters s)

split_from_found :
    (fuel : ℕ) (sep s : Text) {a b : Text}
    → break_on sep s ≡ some (a, b)
    → split_from (suc fuel) sep s ≡ a ∷ split_from fuel sep b
unfolding split_from
split_from_found fuel sep s {a} {b} e =
    ap (λ o. elim o as (λ _. List Text) [ none ↦ s ∷ [] | some (x, y) ↦ x ∷ split_from fuel sep y ])
      e

split_from_last :
    (fuel : ℕ) (sep s : Text) → break_on sep s ≡ none → split_from (suc fuel) sep s ≡ s ∷ []
unfolding split_from
split_from_last fuel sep s e =
    ap (λ o. elim o as (λ _. List Text) [ none ↦ s ∷ [] | some (x, y) ↦ x ∷ split_from fuel sep y ])
      e

joined_behind-split_from :
    (fuel : ℕ) (sep s : Text) → joined_behind sep (split_from fuel sep s) ≡ sep ++ s
unfolding split_from joined_behind
joined_behind-split_from zero sep s = simp append-nil
joined_behind-split_from (suc fuel) sep s = elim (Option-cases (break_on sep s)) [
  | inl e ↦ rw (split_from_last fuel sep s e) (simp append-nil)
  | inr ((a, b), e) ↦
      rw (split_from_found fuel sep s e) (
        rw (joined_behind-split_from fuel sep b)
          (ap (λ t. sep ++ t) (sym (break_on_sound sep s e))))
]

join-split_from : (fuel : ℕ) (sep s : Text) → join sep (split_from fuel sep s) ≡ s
unfolding split_from join joined_behind
join-split_from zero sep s = simp append-nil
join-split_from (suc fuel) sep s = elim (Option-cases (break_on sep s)) [
  | inl e ↦ rw (split_from_last fuel sep s e) (simp append-nil)
  | inr ((a, b), e) ↦
      rw (split_from_found fuel sep s e)
        (rw (joined_behind-split_from fuel sep b) (sym (break_on_sound sep s e)))
]

-- Joining the pieces with the separator, which may be empty, gives the text back.
pub join-split_string : (sep text : Text) → join sep (split_string text sep) ≡ text
unfolding split_string
join-split_string [] text = join-characters text
join-split_string (c ∷ sep) text = join-split_from (length text) (c ∷ sep) text

split_from_whole :
    (fuel : ℕ) (c : ℕ) (sep s : Text)
    → length s ≤ fuel
    → All (λ piece. break_on (c ∷ sep) piece ≡ none) (split_from fuel (c ∷ sep) s)
unfolding split_from break_on strip_prefix
split_from_whole zero c sep [] h = (refl, tt)
split_from_whole zero c sep (x ∷ s) h = ground arith
split_from_whole (suc fuel) c sep s h = elim (Option-cases (break_on (c ∷ sep) s)) [
  | inl e ↦ ground arith
  | inr ((a, b), e) ↦ ground (
    arith,
    break_on_first c sep s {a = a} {b = b} e,
    length-break_on c sep s {a = a} {b = b} e,
    split_from_whole fuel c sep b,
  )
]

-- No piece holds the separator, where that is not empty.
pub split_string_whole :
    (c : ℕ) (sep text : Text)
    → All (λ piece. break_on (c ∷ sep) piece ≡ none) (split_string text (c ∷ sep))
unfolding split_string
split_string_whole c sep text = split_from_whole (length text) c sep text (omega arith)
