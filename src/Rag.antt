-- ===== src/Rag.antt =====
-- include/langchain/rag and src/rag.
pub mod Document
pub mod Splitter
pub mod Csv
pub mod Html
pub mod Loaders
pub mod Format
pub mod Embeddings
pub mod Similarity
pub mod VectorStore
pub mod InMemoryStore
pub mod Faiss
pub mod PgVectorSql
pub mod PgVector
pub mod Qdrant
