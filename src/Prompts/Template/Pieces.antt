-- ===== src/Prompts/Template/Pieces.antt =====
-- What a template stands for.
use langchain_cpp.Base.{
  ℕ, zero, suc, ◌+◌, ◌≤◌, ◌≡◌, refl, ◌∙◌, ◌-◌, true, ap, List, [], ◌∷◌, ◌++◌, arith, length,
  length-append, ◌==◌, All,
}
use langchain_cpp.Base.Text.{Text, Lacks, break_at-append, break_at-Lacks}
use langchain_cpp.Prompts.Template.{PromptValues, substitute, render_from, render_template}

-- Literal text, and a placeholder.
pub data Piece : Type 0 where
  literal : Text → Piece
  placeholder : Text → Piece

abbrev pub IsPiece : Piece → Type 0
IsPiece (literal s) = Lacks b'{' s
IsPiece (placeholder key) = Lacks b'}' key

abbrev pub print : List Piece → Text → Text
print [] tail = tail
print (literal s ∷ ps) tail = s ++ print ps tail
print (placeholder key ∷ ps) tail = b'{' ∷ (key ++ (b'}' ∷ print ps tail))

abbrev pub meaning : PromptValues → List Piece → Text → Text
meaning values [] tail = tail
meaning values (literal s ∷ ps) tail = s ++ meaning values ps tail
meaning values (placeholder key ∷ ps) tail = substitute values key ++ meaning values ps tail

-- What may stand behind the last piece: nothing, or an opening brace that is never closed.
abbrev pub IsTail : Text → Type 0
IsTail [] = Unit
IsTail (c ∷ s) = ((c == b'{') ≡ true) × Lacks b'}' s

render_literal :
    (s rest : Text) (fuel : ℕ) (values : PromptValues)
    → Lacks b'{' s
    → render_from (length s + fuel) (s ++ rest) values ≡ s ++ render_from fuel rest values
unfolding render_from
render_literal [] rest fuel values h = let e : 0 + fuel ≡ fuel = omega arith in rw e
render_literal (c ∷ s) rest fuel values h =
    let e : suc (length s) + fuel ≡ suc (length s + fuel) = omega arith in
    rw (e, h.0, render_literal s rest fuel values h.1)

render_tail :
    (tail : Text) (fuel : ℕ) (values : PromptValues)
    → IsTail tail
    → length tail ≤ fuel
    → render_from fuel tail values ≡ tail
unfolding render_from
render_tail [] zero values t h = refl
render_tail [] (suc fuel) values t h = refl
render_tail (c ∷ s) zero values t h = absurd (omega arith)
render_tail (c ∷ s) (suc fuel) values t h = rw (t.0, break_at-Lacks b'}' s t.1)

render_print :
    (ps : List Piece) (tail : Text) (fuel : ℕ) (values : PromptValues)
    → All IsPiece ps
    → IsTail tail
    → length (print ps tail) ≤ fuel
    → render_from fuel (print ps tail) values ≡ meaning values ps tail
unfolding render_from
render_print [] tail fuel values p t h = render_tail tail fuel values t h
render_print (literal s ∷ ps) tail fuel values p t h =
    let size = length-append s (print ps tail) in
    let split : fuel ≡ length s + (fuel - length s) = omega arith in
    rw split (
      render_literal s (print ps tail) (fuel - length s) values p.0
      ∙ ap (λ r. s ++ r) (render_print ps tail (fuel - length s) values p.1 t (omega arith)))
render_print (placeholder key ∷ ps) tail zero values p t h = absurd (omega arith)
render_print (placeholder key ∷ ps) tail (suc fuel) values p t h =
    let size = length-append key (b'}' ∷ print ps tail) in
    rw (break_at-append b'}' key (print ps tail) p.0)
      (ap (λ r. substitute values key ++ r) (render_print ps tail fuel values p.1 t (omega arith)))

-- A template of literal texts and placeholders `{key}` renders as the texts with each placeholder
-- replaced by the value of its key, which is not scanned again, or left as it is where the key has
-- no value. An opening brace that is never closed is kept, with all that follows it. So the fuel of
-- the model is enough.
pub render_template-print :
    (ps : List Piece) (tail : Text) (values : PromptValues)
    → All IsPiece ps
    → IsTail tail
    → render_template (print ps tail) values ≡ meaning values ps tail
unfolding render_template
render_template-print ps tail values p t =
    render_print ps tail (length (print ps tail)) values p t (omega arith)
