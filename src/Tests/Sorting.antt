-- ===== src/Tests/Sorting.antt =====
-- An insertion sort, which keeps what std::sort promises.
use mathlib.Core.List.{Perm}
use mathlib.Core.List.Perm
use langchain_cpp.Base.{
  ◌≡◌, true, false, Bool, List, [], ◌∷◌, if◌then◌else◌, arith, All, Bool-cases, inl, inr,
}
use langchain_cpp.Rag.Similarity.{Sort}
use langchain_cpp.Rag.InMemoryStore.Nearest.{IsSort, IsStrictWeak, Ordered}

module _ {A : Type 0} where
  abbrev place : (A → A → Bool) → A → List A → List A
  place less x [] = x ∷ []
  place less x (y ∷ ys) = let rest = place less x ys in if less y x then y ∷ rest else x ∷ y ∷ ys

  place-Perm : (less : A → A → Bool) (x : A) (xs : List A) → Perm (place less x xs) (x ∷ xs)
  place-Perm less x [] = Perm.refl (x ∷ [])
  place-Perm less x (y ∷ ys) = elim (Bool-cases (less y x)) [
    | inl e ↦ rw e (Perm.trans (Perm.cons y (place-Perm less x ys)) (Perm.swap x y ys))
    | inr e ↦ rw e (Perm.refl (x ∷ y ∷ ys))
  ]

  place-All :
      (P : A → Type 0) (less : A → A → Bool) (x : A) (xs : List A)
      → P x
      → All P xs
      → All P (place less x xs)
  place-All P less x [] p h = (p, tt)
  place-All P less x (y ∷ ys) p h = elim (Bool-cases (less y x)) [
    | inl e ↦ rw e (h.0, place-All P less x ys p h.1)
    | inr e ↦ rw e (p, h)
  ]

  All-implies : (P Q : A → Type 0) (xs : List A) → ((x : A) → P x → Q x) → All P xs → All Q xs
  All-implies P Q [] f h = tt
  All-implies P Q (x ∷ xs) f h = (f x h.0, All-implies P Q xs f h.1)

  asymmetric :
      (less : A → A → Bool) (a b : A) → IsStrictWeak less → less a b ≡ true → less b a ≡ false
  asymmetric less a b o h = elim (Bool-cases (less b a)) [
    | inl e ↦ ground (arith, o.irreflexive a, o.transitive a b a h e)
    | inr e ↦ e
  ]

  place-Ordered :
      (less : A → A → Bool) (x : A) (xs : List A)
      → IsStrictWeak less
      → Ordered less xs
      → Ordered less (place less x xs)
  place-Ordered less x [] o h = (tt, tt)
  place-Ordered less x (y ∷ ys) o h = elim (Bool-cases (less y x)) [
    | inl e ↦ rw e (
      place-All (λ z. less z y ≡ false) less x ys (asymmetric less y x o e) h.0,
      place-Ordered less x ys o h.1,
    )
    | inr e ↦ rw e (
      (
        e,
        All-implies (λ z. less z y ≡ false) (λ z. less z x ≡ false) ys
            (λ z n. o.cotransitive z y x n e) h.0,
      ),
      h,
    )
  ]

abbrev pub insertion_sort : Sort
insertion_sort A less [] = []
insertion_sort A less (x ∷ xs) = place less x (insertion_sort A less xs)

pub insertion_sort-IsSort : IsSort insertion_sort
insertion_sort-IsSort A less [] o = (Perm.refl [], tt)
insertion_sort-IsSort A less (x ∷ xs) o =
    let (p, h) = insertion_sort-IsSort A less xs o in
    (
      Perm.trans (place-Perm less x (insertion_sort A less xs)) (Perm.cons x p),
      place-Ordered less x (insertion_sort A less xs) o h,
    )
