-- ===== src/Agents.antt =====
-- include/langchain/agents and src/agents.
pub mod Executor
