-- ===== src/Base/Outcome.antt =====
-- C++ calls that may throw a std::exception. Exceptions that do not derive from std::exception are
-- outside the model.
use mathlib.Core.Path.{◌≡◌, refl}
use mathlib.Core.Logic.{◌⊎◌, inl, inr}
use mathlib.Core.List.{List, [], ◌∷◌, map}
use langchain_cpp.Base.Text.{Text}

-- `throws` carries what().
pub data Outcome {ℓ} (A : Type ℓ) : Type ℓ where
  ok : A → Outcome A
  throws : Text → Outcome A

infixl 5 ◌>>=◌
abbrev pub ◌>>=◌ {ℓ κ} : {A : Type ℓ} {B : Type κ} → Outcome A → (A → Outcome B) → Outcome B
ok a >>= f = f a
throws e >>= f = throws e

pub Outcome-cases {ℓ} :
    {A : Type ℓ} (r : Outcome A) → ((a : A) × (r ≡ ok a)) ⊎ ((e : Text) × (r ≡ throws e))
Outcome-cases (ok a) = inl (a, refl)
Outcome-cases (throws e) = inr (e, refl)

-- A loop that makes one call for each element and stops at the first exception.
unfoldable pub traverse {ℓ κ} :
    {A : Type ℓ} {B : Type κ} → (A → Outcome B) → List A → Outcome (List B)
traverse f [] = ok []
traverse f (x ∷ xs) = do y ← f x; ys ← traverse f xs; ok (y ∷ ys)

-- Where every call succeeds with the inverse of `g`, the loop undoes `map g`.
pub traverse-map {ℓ κ} :
    {A : Type ℓ} {B : Type κ} (f : B → Outcome A) (g : A → B) (xs : List A)
    → ((x : A) → f (g x) ≡ ok x)
    → traverse f (map g xs) ≡ ok xs
unfolding traverse
traverse-map f g [] h = refl
traverse-map f g (x ∷ xs) h = rw (h x, traverse-map f g xs h)
