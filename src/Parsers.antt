-- ===== src/Parsers.antt =====
-- include/langchain/parsers and src/parsers.
pub mod Json
pub mod OutputFixing
