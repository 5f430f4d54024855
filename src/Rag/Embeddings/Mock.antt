-- ===== src/Rag/Embeddings/Mock.antt =====
-- src/rag/embeddings/mock_embeddings.cpp, over parameters for the floating-point numbers and
-- std::hash.
use langchain_cpp.Base.{
  ℕ, zero, suc, Bool, ◌&&◌, ◌||◌, ◌%◌, List, [], ◌∷◌, map, leb, if◌then◌else◌, is_empty,
}
use langchain_cpp.Base.Text.{Text}
use langchain_cpp.Core.Message.MediaType.{to_lower}
use langchain_cpp.Providers.Mock.{words_of}
use langchain_cpp.Rag.Similarity.{Floats}

-- std::isalnum in the "C" locale
abbrev pub is_alnum : ℕ → Bool
is_alnum c = leb 48 c && leb c 57 || leb 65 c && leb c 90 || leb 97 c && leb c 122

unfoldable pub normalize_word : Text → Text
normalize_word [] = []
normalize_word (c ∷ word) =
    let rest = normalize_word word in if is_alnum c then to_lower c ∷ rest else rest

abbrev pub replicate : {A : Type 0} → ℕ → A → List A
replicate zero a = []
replicate (suc n) a = a ∷ replicate n a

module _ (F : Floats) (hasher : Text → ℕ) where
  open F use {
    Float, zero_float, one_float, add_float, multiply_float, divide_float, square_root_float,
    is_positive_float,
  }

  -- vector[index] += 1.0f
  abbrev pub add_one : List Float → ℕ → List Float
  add_one [] i = []
  add_one (x ∷ xs) zero = add_float x one_float ∷ xs
  add_one (x ∷ xs) (suc i) = x ∷ add_one xs i

  unfoldable pub count_words : ℕ → List Text → List Float → List Float
  unfolding normalize_word
  count_words dimensions [] vector = vector
  count_words dimensions (word ∷ words) vector =
      let skipped = count_words dimensions words vector in
      let counted =
        count_words dimensions words (add_one vector (hasher (normalize_word word) % dimensions)) in
      if is_empty (normalize_word word) then skipped else counted

  abbrev pub sum_of_squares : List Float → Float → Float
  sum_of_squares [] norm = norm
  sum_of_squares (x ∷ xs) norm = sum_of_squares xs (add_float norm (multiply_float x x))

  -- MockEmbeddings::embed_query
  unfoldable pub embed_query : ℕ → Text → List Float
  unfolding count_words words_of
  embed_query dimensions text =
      let vector = count_words dimensions (words_of text) (replicate dimensions zero_float) in
      let norm = square_root_float (sum_of_squares vector zero_float) in
      if is_positive_float norm then map (λ x. divide_float x norm) vector else vector
