-- ===== src/Rag/Similarity.antt =====
-- src/core/similarity.cpp, and the ranking by similarity that the stores share. Floating-point numbers
-- are a parameter, and so is std::sort.
use langchain_cpp.Base.{
  ℕ, zero, suc, Bool, ◌||◌, List, [], ◌∷◌, none, some, if◌then◌else◌, length, take, get_elem?, min,
}
use mathlib.Core.List.{filter_map}
use langchain_cpp.Base.Text.{Text}

-- float and double, with the operations that the source uses
pub record Floats : Type 1 where
  pub Float : Type 0
  pub Double : Type 0
  pub widen : Float → Double
  pub narrow : Double → Float
  pub zero_double : Double
  pub zero_float : Float
  pub add : Double → Double → Double
  pub multiply : Double → Double → Double
  pub divide : Double → Double → Double
  pub square_root : Double → Double
  -- x == 0.0, x > 0.0
  pub is_zero : Double → Bool
  pub is_positive : Double → Bool
  -- the same on float
  pub one_float : Float
  pub add_float : Float → Float → Float
  pub multiply_float : Float → Float → Float
  pub divide_float : Float → Float → Float
  pub square_root_float : Float → Float
  pub is_positive_float : Float → Bool
  -- a > b
  pub above : Float → Float → Bool
  -- operator<< on a float
  pub show : Float → Text

-- The locals of the loop: dot, norm_a and norm_b.
pub record Sums (D : Type 0) : Type 0 where
  pub dot : D
  pub norm_a : D
  pub norm_b : D

-- std::sort with a comparison
abbrev pub Sort : Type 1
Sort = (A : Type 0) → (A → A → Bool) → List A → List A

module _ (F : Floats) where
  open F use {
    Float, Double, widen, narrow, zero_double, zero_float, add, multiply, divide, square_root,
    is_zero, above,
  }

  -- The vectors have the same length.
  unfoldable pub sums : List Float → List Float → Sums Double → Sums Double
  sums [] b s = s
  sums (x ∷ a) [] s = s
  sums (x ∷ a) (y ∷ b) s = sums a b (record {
    dot = add s.dot (multiply (widen x) (widen y));
    norm_a = add s.norm_a (multiply (widen x) (widen x));
    norm_b = add s.norm_b (multiply (widen y) (widen y));
  })

  unfoldable pub cosine_similarity : List Float → List Float → Float
  unfolding sums
  cosine_similarity a b =
      let s = sums a b (record { dot = zero_double; norm_a = zero_double; norm_b = zero_double }) in
      if is_zero s.norm_a || is_zero s.norm_b
      then zero_float
      else narrow (divide s.dot (multiply (square_root s.norm_a) (square_root s.norm_b)))

-- vectors[i] and documents[i], where the index is in range
abbrev pub vector_at : {A : Type 0} → List (List A) → ℕ → List A
vector_at vectors i = elim (get_elem? vectors i) [ none ↦ [] | some v ↦ v ]

-- std::iota from `i`, of length `n`
abbrev pub iota : ℕ → ℕ → List ℕ
iota i zero = []
iota i (suc n) = i ∷ iota (suc i) n

-- The items at these indices, which are in range.
abbrev pub pick : {A : Type 0} → List A → List ℕ → List A
pick items = filter_map (get_elem? items)

module _ (F : Floats) (sort : Sort) where
  open F use {Float, above}

  -- The comparison of two indices.
  abbrev pub nearer : List Float → List (List Float) → ℕ → ℕ → Bool
  nearer query_vector vectors a b =
      above (cosine_similarity F query_vector (vector_at vectors a))
        (cosine_similarity F query_vector (vector_at vectors b))

  -- The indices of `n` items, sorted.
  unfoldable pub ranking : List Float → List (List Float) → ℕ → List ℕ
  ranking query_vector vectors n = sort ℕ (nearer query_vector vectors) (iota 0 n)

  -- The first min(k, n) of the items in that order.
  unfoldable pub nearest : {A : Type 0} → List Float → List (List Float) → ℕ → List A → List A
  unfolding ranking
  nearest query_vector vectors k items =
      pick items (take (min k (length items)) (ranking query_vector vectors (length items)))
