-- ===== src/Tests.antt =====
-- The theorems at concrete inputs.
pub mod Samples
mod Agents
mod Mcp
mod Http
mod Llm
mod Rag
mod Core
mod Text
mod Providers
mod Stores
pub mod Sorting
