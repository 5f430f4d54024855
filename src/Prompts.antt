-- ===== src/Prompts.antt =====
-- include/langchain/prompts and src/prompts.
pub mod Template
pub mod FewShot
