-- ===== src/Core/Runnable/Laws.antt =====
-- Composition, batches, routing and parallel branches.
use langchain_cpp.Base.{
  ◌∙◌, ◌≡◌, refl, Bool, true, false, List, [], ◌∷◌, ◌++◌, Option, none, some, arith, inl, inr, All,
}
use langchain_cpp.Base.Text.{Text, text_eq_iff}
use langchain_cpp.Base.Outcome.{Outcome, ok, throws, Outcome-cases}
use langchain_cpp.Base.Exec.{Exec, pure, continue, ◌>>=◌}
use langchain_cpp.Base.Dict.{Dict, Distinct, lookup, insert, lookup-insert}
use langchain_cpp.Core.Runnable.{
  Runnable, batch, runnable_parallel, parallel_from, runnable_branch, ◌>>>◌,
}

continue_assoc :
    {W A B C : Type 0} (r : Outcome A) (w : W) (f : A → Exec W B) (g : B → Exec W C)
    → continue r (λ a. f a >>= g) w ≡ (continue r f >>= g) w
continue_assoc (ok a) w f g = refl
continue_assoc (throws e) w f g = refl

-- `(f | g) | h` and `f | (g | h)` have the same result and leave the same world, exceptions
-- included.
pub sequence_assoc :
    {W A B C D : Type 0} (f : Runnable W A B) (g : Runnable W B C) (h : Runnable W C D) (a : A)
    (w : W)
    → (f >>> (g >>> h)) a w ≡ ((f >>> g) >>> h) a w
unfolding ◌>>>◌
sequence_assoc f g h a w = continue_assoc (f a w).0 (f a w).1 g h

module _ {I O : Type 0} where
  -- What a run of the branches adds to `m`.
  overlay : List (Text × (I → O)) → I → Dict O → Dict O
  overlay [] input m = m
  overlay ((key, f) ∷ fs) input m = overlay fs input (insert key (f input) m)

  abbrev pub branch_result : Option (I → O) → I → Option O → Option O
  branch_result none input otherwise = otherwise
  branch_result (some f) input otherwise = some (f input)

  lookup-overlay :
      (fs : List (Text × (I → O))) (input : I) (m : Dict O) (k : Text)
      → Distinct fs
      → lookup k (overlay fs input m) ≡ branch_result (lookup k fs) input (lookup k m)
  unfolding overlay
  lookup-overlay [] input m k h = refl
  lookup-overlay ((key, f) ∷ fs) input m k h =
      lookup-overlay fs input (insert key (f input) m) k h.1
      ∙ ground (arith, lookup-insert key k (f input) m, text_eq_iff key k)

module _ {W I O : Type 0} where
  -- A batch over two lists of inputs is the batch over the first and then, if it did not throw,
  -- the batch over the second, with the results joined.
  pub batch-append :
      (f : Runnable W I O) (xs ys : List I) (w : W)
      → batch f (xs ++ ys) w ≡ (batch f xs >>= λ rs. batch f ys >>= λ ss. pure (rs ++ ss)) w
  unfolding batch
  batch-append f [] ys w = elim (Outcome-cases (batch f ys w).0) [
    | inl (a, e) ↦ ground arith
    | inr (a, e) ↦ ground arith
  ]
  batch-append f (x ∷ xs) ys w = ground (arith, batch-append f xs ys (f x w).1)

  -- The first branch whose predicate holds is run, and no other.
  pub runnable_branch_first :
      (before after : List ((I → Bool) × Runnable W I O)) (p : I → Bool) (b d : Runnable W I O)
      (input : I)
      → All (λ br. br.0 input ≡ false) before
      → p input ≡ true
      → (w : W) → runnable_branch (before ++ (p, b) ∷ after) d input w ≡ b input w
  unfolding runnable_branch
  runnable_branch_first [] after p b d input h hp w = rw hp
  runnable_branch_first (x ∷ before) after p b d input h hp w =
      rw h.0 (runnable_branch_first before after p b d input h.1 hp w)

  -- A branch that neither throws nor writes.
  abbrev pub stateless : List (Text × (I → O)) → List (Text × Runnable W I O)
  stateless [] = []
  stateless ((key, f) ∷ fs) = (key, λ input. pure (f input)) ∷ stateless fs

  parallel-overlay :
      (fs : List (Text × (I → O))) (input : I) (m : Dict O) (w : W)
      → parallel_from (stateless fs) input m w ≡ (ok (overlay fs input m), w)
  unfolding parallel_from overlay
  parallel-overlay [] input m w = refl
  parallel-overlay ((key, f) ∷ fs) input m w = parallel-overlay fs input (insert key (f input) m) w

  -- Where the branches neither throw nor write, the call returns and leaves the world alone, and
  -- the result has at each key what the branch of that key returns, and no other key.
  pub runnable_parallel_lem :
      (fs : List (Text × (I → O))) (input : I) (w : W)
      → Distinct fs
      → (m : Dict O) × (runnable_parallel (stateless fs) input w ≡ (ok m, w))
        × ((k : Text) → lookup k m ≡ branch_result (lookup k fs) input none)
  unfolding runnable_parallel
  runnable_parallel_lem fs input w h =
      (overlay fs input [], parallel-overlay fs input [] w, λ k. lookup-overlay fs input [] k h)
