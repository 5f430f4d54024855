-- ===== src/Rag/VectorStore.antt =====
-- include/langchain/rag/vectorstores/vector_store.hpp, src/rag/vectorstores/vector_store.cpp and
-- src/rag/retrievers/retriever.cpp.
use langchain_cpp.Base.{ℕ, List}
use langchain_cpp.Base.Text.{Text}
use langchain_cpp.Base.Exec.{Exec}
use langchain_cpp.Rag.Document.{Document}

pub record VectorStore (V W : Type 0) : Type 0 where
  pub add_documents : List (Document V) → Exec W (Unit {0})
  pub similarity_search : Text → ℕ → Exec W (List (Document V))

pub record Retriever (V W : Type 0) : Type 0 where
  pub store : VectorStore V W
  pub k : ℕ

module _ {V W : Type 0} where
  abbrev pub as_retriever : VectorStore V W → ℕ → Retriever V W
  as_retriever store k = record { store = store; k = k }

  -- Retriever::invoke
  unfoldable pub invoke : Retriever V W → Text → Exec W (List (Document V))
  invoke retriever query = retriever.store.similarity_search query retriever.k
