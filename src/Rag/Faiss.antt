-- ===== src/Rag/Faiss.antt =====
-- src/rag/vectorstores/faiss_vector_store.cpp, over parameters for the floating-point numbers and for
-- faiss::IndexFlatIP: the labels that a search gives.
use langchain_cpp.Base.{
  ℕ, not, List, [], ◌∷◌, ◌++◌, map, Option, none, some, ◌==◌, if◌then◌else◌, is_empty, length, min,
  get_elem?,
}
use langchain_cpp.Base.Text.{Text, codes}
use langchain_cpp.Base.Outcome.{Outcome, ok, throws, ◌>>=◌}
use langchain_cpp.Base.Exec.{Exec}
use langchain_cpp.Rag.Document.{Document}
use langchain_cpp.Rag.Embeddings.{Embeddings}
use langchain_cpp.Rag.Similarity.{Floats}
use langchain_cpp.Rag.VectorStore.{VectorStore}

-- The store, with the world `W` of the embeddings: the dimension is set with the index, which holds
-- the vectors that were added.
pub record FaissState (V X W : Type 0) : Type 0 where
  pub documents : List (Document V)
  pub index : Option (ℕ × List (List X))
  pub rest : W

-- The labels of a search of `k`; -1 is none.
abbrev pub Search : Type 0 → Type 0
Search X = List (List X) → List X → ℕ → List (Option ℕ)

-- The documents under the labels, which are in range.
unfoldable pub labelled : {A : Type 0} → List A → List (Option ℕ) → List A
labelled documents [] = []
labelled documents (none ∷ labels) = labelled documents labels
labelled documents (some i ∷ labels) =
    let rest = labelled documents labels in
    elim (get_elem? documents i) [ none ↦ rest | some d ↦ d ∷ rest ]

module _ (F : Floats) where
  open F use {
    Float, Double, widen, narrow, zero_double, add, multiply, divide, square_root, is_positive,
  }

  abbrev pub sum_of_squares : List Float → Double → Double
  sum_of_squares [] sum = sum
  sum_of_squares (x ∷ xs) sum = sum_of_squares xs (add sum (multiply (widen x) (widen x)))

  unfoldable pub normalize : List Float → List Float
  normalize vector =
      let norm = square_root (sum_of_squares vector zero_double) in
      if is_positive norm then map (λ x. narrow (divide (widen x) norm)) vector else vector

  -- The loop that normalizes the vectors, all of the dimension.
  unfoldable pub normalize_all : ℕ → List (List Float) → Outcome (List (List Float))
  unfolding normalize
  normalize_all dimension [] = ok []
  normalize_all dimension (vector ∷ vectors) =
      let rest = normalize_all dimension vectors in
      if not (length vector == dimension)
      then throws (codes "FaissVectorStore: all embeddings must have the same dimension")
      else (rest >>= λ normalized. ok (normalize vector ∷ normalized))

  -- vectors.front().size()
  abbrev pub front_size : List (List Float) → ℕ
  front_size [] = 0
  front_size (v ∷ vs) = length v

  -- The index, made where there is none.
  abbrev pub index_or_new :
      Option (ℕ × List (List Float)) → List (List Float) → ℕ × List (List Float)
  index_or_new (some index) vectors = index
  index_or_new none vectors = (front_size vectors, [])

module _ (F : Floats) (search : Search F.Float) {V W : Type 0}
    (embeddings : Embeddings F.Float W) where
  open F use {Float}

  abbrev pub index_documents :
      List (Document V)
      → FaissState V Float W
      → ℕ × List (List Float)
      → Outcome (List (List Float))
      → Outcome (Unit {0}) × FaissState V Float W
  index_documents documents s (dimension, held) (throws e) =
      (throws e, record s { index = some (dimension, held) })
  index_documents documents s (dimension, held) (ok normalized) = (
    ok tt,
    record s { documents = s.documents ++ documents; index = some (dimension, held ++ normalized) },
  )

  abbrev pub add_embedded :
      List (Document V)
      → FaissState V Float W
      → Outcome (List (List Float)) × W
      → Outcome (Unit {0}) × FaissState V Float W
  add_embedded documents s (throws e, w) = (throws e, record s { rest = w })
  add_embedded documents s (ok vectors, w) =
      let index = index_or_new F s.index vectors in
      index_documents documents (record s { rest = w }) index (normalize_all F index.0 vectors)

  -- FaissVectorStore::add_documents
  unfoldable pub add_documents : List (Document V) → Exec (FaissState V Float W) (Unit {0})
  add_documents documents s =
      if is_empty documents
      then (ok tt, s)
      else add_embedded documents s
          (embeddings.embed_documents (map (λ d. d.content) documents) s.rest)

  abbrev pub search_with :
      ℕ × List (List Float)
      → ℕ
      → FaissState V Float W
      → Outcome (List Float) × W
      → Outcome (List (Document V)) × FaissState V Float W
  search_with (dimension, held) k s (throws e, w) = (throws e, record s { rest = w })
  search_with (dimension, held) k s (ok query_vector, w) = (
    (if not (length query_vector == dimension)
        then throws (codes "FaissVectorStore: query embedding dimension doesn't match the index")
        else ok (
            labelled s.documents
              (search held (normalize F query_vector) (min k (length s.documents))))),
    record s { rest = w },
  )

  abbrev pub search_index :
      Option (ℕ × List (List Float)) → Text → ℕ → Exec (FaissState V Float W) (List (Document V))
  search_index none query k s = (ok [], s)
  search_index (some index) query k s =
      if is_empty s.documents
      then (ok [], s)
      else search_with index k s (embeddings.embed_query query s.rest)

  -- FaissVectorStore::similarity_search
  unfoldable pub similarity_search : Text → ℕ → Exec (FaissState V Float W) (List (Document V))
  similarity_search query k s = search_index s.index query k s

  abbrev pub faiss_store : VectorStore V (FaissState V Float W)
  faiss_store = record { add_documents = add_documents; similarity_search = similarity_search }
