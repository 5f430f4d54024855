-- ===== src/Rag/InMemoryStore/Nearest.antt =====
-- What a search gives.
use mathlib.Core.List.{filter_map, filter_map-append, foldr}
use mathlib.Core.List.{Perm}
use mathlib.Core.List.Perm
use native.Mathlib.Nat.{ℕ_set}
use langchain_cpp.Base.{
  ℕ, zero, suc, ◌≡◌, ◌≤◌, refl, ap, sym, subst, ◌∙◌, Bool, true, false, List, [], ◌∷◌, ◌++◌, some,
  arith, All, length, length-append, take, drop, take-drop, length-take, get_elem?, append_assoc,
  get_elem?-append, All-drop, min, Option-cases, inl, inr,
}
use langchain_cpp.Rag.Similarity.{
  Floats, Sort, nearest, ranking, pick, iota, vector_at, cosine_similarity,
}

module _ {A : Type 0} where
  length-foldr : (xs : List A) → foldr (λ x n. suc n) 0 xs ≡ length xs
  length-foldr [] = refl
  length-foldr (x ∷ xs) = ap suc (length-foldr xs)

  length-perm : {xs ys : List A} → Perm xs ys → length xs ≡ length ys
  length-perm {xs} {ys} p =
      sym (length-foldr xs)
      ∙ Perm.foldr-eq ℕ_set (λ x n. suc n) (λ a b n. refl) p 0
      ∙ length-foldr ys

  -- No element is to come before an earlier one.
  abbrev pub Ordered : (A → A → Bool) → List A → Type 0
  Ordered less [] = Unit
  Ordered less (x ∷ xs) = All (λ y. less y x ≡ false) xs × Ordered less xs

  split-Ordered :
      (less : A → A → Bool) (n : ℕ) (xs : List A)
      → Ordered less xs
      → All (λ x. All (λ y. less y x ≡ false) (drop n xs)) (take n xs)
  split-Ordered less zero xs h = tt
  split-Ordered less (suc n) [] h = tt
  split-Ordered less (suc n) (x ∷ xs) h =
      (All-drop (λ y. less y x ≡ false) n xs h.0, split-Ordered less n xs h.1)

  pick-cons :
      (items : List A) (i : ℕ) (is : List ℕ) (x : A)
      → get_elem? items i ≡ some x
      → pick items (i ∷ is) ≡ x ∷ pick items is
  unfolding filter_map
  pick-cons items i is x e = rw e refl

  -- All the items in their own order.
  pick-iota :
      (before items : List A) → pick (before ++ items) (iota (length before) (length items)) ≡ items
  unfolding filter_map
  pick-iota before [] = refl
  pick-iota before (x ∷ items) =
      pick-cons (before ++ x ∷ items) (length before) (iota (suc (length before)) (length items)) x
        (get_elem?-append before x items)
      ∙ ap (λ xs. x ∷ xs)
          (subst (λ n. pick (before ++ x ∷ items) (iota n (length items)) ≡ items)
            (omega (arith, length-append before (x ∷ [])))
            (subst (λ l. pick l (iota (length (before ++ x ∷ [])) (length items)) ≡ items)
              (append_assoc before (x ∷ []) items) (pick-iota (before ++ x ∷ []) items)))

  length-pick : (items : List A) (is : List ℕ) → length (pick items is) ≤ length is
  unfolding filter_map
  length-pick items [] = omega arith
  length-pick items (i ∷ is) = elim (Option-cases (get_elem? items i)) [
    | inl e ↦ rw e (omega (arith, length-pick items is))
    | inr (x, e) ↦ rw e (omega (arith, length-pick items is))
  ]

length-iota : (i n : ℕ) → length (iota i n) ≡ n
length-iota i zero = refl
length-iota i (suc n) = ap suc (length-iota (suc i) n)

-- A choice of `n` of the items, all at least as near as each of the others.
abbrev IsChoice : {A : Type 0} → (ℕ → ℕ → Bool) → ℕ → List A → List A → Type 0
IsChoice {A} less n items results =
    (length results ≡ n)
    × ((chosen : List ℕ) × (others : List ℕ) × (results ≡ pick items chosen)
        × Perm (pick items chosen ++ pick items others) items
        × All (λ a. All (λ b. less b a ≡ false) others) chosen)

choose :
    {A : Type 0} (less : ℕ → ℕ → Bool) (k : ℕ) (items : List A) (order : List ℕ)
    → Perm order (iota 0 (length items))
    → Ordered less order
    → IsChoice less (min k (length items)) items (pick items (take (min k (length items)) order))
choose less k items order p o =
    let n = min k (length items) in
    let chosen = take n order in
    let others = drop n order in
    let size : length order ≡ length items = length-perm p ∙ length-iota 0 (length items) in
    let all : Perm (pick items chosen ++ pick items others) items =
      subst (λ xs. Perm xs items)
        (ap (pick items) (sym (take-drop n order))
          ∙ filter_map-append (get_elem? items) chosen others)
        (subst (λ xs. Perm (pick items order) xs) (pick-iota [] items)
          (Perm.filter_map (get_elem? items) p)) in
    (
      omega (
        arith,
        length-take n order (omega (arith, size)),
        length-pick items chosen,
        length-pick items others,
        ap length (take-drop n order),
        length-append chosen others,
        length-perm all,
        length-append (pick items chosen) (pick items others),
        size,
      ),
      (chosen, others, refl, all, split-Ordered less n order o),
    )

-- A strict weak order, as std::sort requires of its comparison.
pub record IsStrictWeak {A : Type 0} (less : A → A → Bool) : Type 0 where
  pub irreflexive : (a : A) → less a a ≡ false
  pub transitive : (a b c : A) → less a b ≡ true → less b c ≡ true → less a c ≡ true
  -- Not being less is transitive.
  pub cotransitive : (a b c : A) → less a b ≡ false → less b c ≡ false → less a c ≡ false

-- What std::sort promises: a permutation in which no element is less than an earlier one.
abbrev pub IsSort : Sort → Type 1
IsSort sort =
    (A : Type 0) (less : A → A → Bool) (xs : List A)
    → IsStrictWeak less
    → Perm (sort A less xs) xs × Ordered less (sort A less xs)

module _ (F : Floats) where
  -- The similarity of the query and of the item at an index.
  abbrev pub similarity : List F.Float → List (List F.Float) → ℕ → F.Float
  similarity query vectors i = cosine_similarity F query (vector_at vectors i)

  -- Whether the item at `a` is more similar to the query than that at `b`.
  abbrev pub more_similar : List F.Float → List (List F.Float) → ℕ → ℕ → Bool
  more_similar query vectors a b = F.above (similarity query vectors a) (similarity query vectors b)

  -- The results are `n` items at chosen indices, which together with the others are the items, and no
  -- other index has a similarity above that of a chosen one.
  abbrev pub IsNearest :
      {A : Type 0} → List F.Float → List (List F.Float) → ℕ → List A → List A → Type 0
  IsNearest query vectors n items results =
      (length results ≡ n)
      × ((chosen : List ℕ) × (others : List ℕ) × (results ≡ pick items chosen)
          × Perm (pick items chosen ++ pick items others) items
          × All (λ a. All (λ b. more_similar query vectors b a ≡ false) others) chosen)

  -- Where the sort keeps what std::sort promises, and comparing the similarities is a strict weak order,
  -- as it is where none is NaN, a search returns the k items most similar to the query, or all where there are fewer: as many
  -- as that, none of them less similar than one that is left out, and with those left out they are the
  -- items.
  pub nearest-IsNearest :
      (sort : Sort) {A : Type 0} (query : List F.Float) (vectors : List (List F.Float)) (k : ℕ)
      (items : List A)
      → IsSort sort
      → IsStrictWeak (more_similar query vectors)
      → IsNearest query vectors (min k (length items)) items (nearest F sort query vectors k items)
  unfolding nearest ranking
  nearest-IsNearest sort query vectors k items sorts order =
      let (p, o) = sorts ℕ (more_similar query vectors) (iota 0 (length items)) order in
      choose (more_similar query vectors) k items
        (sort ℕ (more_similar query vectors) (iota 0 (length items))) p o
