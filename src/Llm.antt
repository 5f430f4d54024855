-- ===== src/Llm.antt =====
-- include/langchain/llm and src/llm, with include/langchain/callbacks and src/callbacks: what wraps
-- a chat model.
pub mod ChatModel
pub mod History
pub mod Caching
pub mod FileHistory
pub mod Callbacking
pub mod RateLimiter
