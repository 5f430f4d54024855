-- ===== src/Rag/InMemoryStore.antt =====
-- src/rag/vectorstores/in_memory_vector_store.cpp, and
-- src/prompts/semantic_similarity_example_selector.cpp, which ranks in the same way.
pub mod Nearest
use langchain_cpp.Base.{ℕ, List, [], ◌∷◌, ◌++◌, map, Option, none, some}
use langchain_cpp.Base.Text.{Text}
use langchain_cpp.Base.Dict.{Dict, lookup}
use langchain_cpp.Base.Outcome.{Outcome, ok, throws}
use langchain_cpp.Base.Exec.{Exec}
use langchain_cpp.Rag.Document.{Document}
use langchain_cpp.Rag.Embeddings.{Embeddings}
use langchain_cpp.Rag.Similarity.{Floats, Sort, nearest}
use langchain_cpp.Rag.VectorStore.{VectorStore}

-- The store, with the world `W` of the embeddings.
pub record InMemoryState (V X W : Type 0) : Type 0 where
  pub documents : List (Document V)
  pub vectors : List (List X)
  pub rest : W

module _ {V X W : Type 0} where
  abbrev pub add_embedded :
      List (Document V)
      → InMemoryState V X W
      → Outcome (List (List X)) × W
      → Outcome (Unit {0}) × InMemoryState V X W
  add_embedded documents s (throws e, w) = (throws e, record s { rest = w })
  add_embedded documents s (ok embedded, w) = (
    ok tt,
    record { documents = s.documents ++ documents; vectors = s.vectors ++ embedded; rest = w },
  )

module _ (F : Floats) (sort : Sort) {V W : Type 0} (embeddings : Embeddings F.Float W) where
  open F use {Float}

  -- InMemoryVectorStore::add_documents
  unfoldable pub add_documents : List (Document V) → Exec (InMemoryState V Float W) (Unit {0})
  add_documents documents s =
      add_embedded documents s (embeddings.embed_documents (map (λ d. d.content) documents) s.rest)

  abbrev pub search_with :
      ℕ
      → InMemoryState V Float W
      → Outcome (List Float) × W
      → Outcome (List (Document V)) × InMemoryState V Float W
  search_with k s (throws e, w) = (throws e, record s { rest = w })
  search_with k s (ok query_vector, w) =
      (ok (nearest F sort query_vector s.vectors k s.documents), record s { rest = w })

  -- InMemoryVectorStore::similarity_search
  unfoldable pub similarity_search : Text → ℕ → Exec (InMemoryState V Float W) (List (Document V))
  similarity_search query k s = search_with k s (embeddings.embed_query query s.rest)

  abbrev pub in_memory_store : VectorStore V (InMemoryState V Float W)
  in_memory_store = record { add_documents = add_documents; similarity_search = similarity_search }

abbrev pub or_empty : Option Text → Text
or_empty none = []
or_empty (some t) = t

abbrev pub field_or_empty : Dict Text → Text → Text
field_or_empty values key = or_empty (lookup key values)

-- A SemanticSimilarityExampleSelector.
pub record Selector (X : Type 0) : Type 0 where
  pub examples : List (Dict Text)
  pub example_vectors : List (List X)
  pub input_key : Text
  pub k : ℕ

abbrev with_vectors :
    {X W : Type 0}
    → List (Dict Text)
    → Text
    → ℕ
    → Outcome (List (List X)) × W
    → Outcome (Selector X) × W
with_vectors examples input_key k (throws e, w) = (throws e, w)
with_vectors examples input_key k (ok vectors, w) = (
  ok (record { examples = examples; example_vectors = vectors; input_key = input_key; k = k }),
  w,
)

module _ (F : Floats) (sort : Sort) {W : Type 0} (embeddings : Embeddings F.Float W) where
  open F use {Float}

  -- The constructor.
  unfoldable pub selector : List (Dict Text) → Text → ℕ → Exec W (Selector Float)
  selector examples input_key k w =
      with_vectors examples input_key k
        (embeddings.embed_documents (map (λ example. field_or_empty example input_key) examples) w)

  abbrev pub select_with :
      Selector Float → Outcome (List Float) × W → Outcome (List (Dict Text)) × W
  select_with s (throws e, w) = (throws e, w)
  select_with s (ok query_vector, w) =
      (ok (nearest F sort query_vector s.example_vectors s.k s.examples), w)

  -- SemanticSimilarityExampleSelector::select_examples
  unfoldable pub select_examples : Selector Float → Dict Text → Exec W (List (Dict Text))
  select_examples s input w =
      select_with s (embeddings.embed_query (field_or_empty input s.input_key) w)
