-- ===== src/Tools.antt =====
-- include/langchain/tools and src/tools, with core::Result of include/langchain/core/result.hpp.
-- `J` is the JSON library and `W` the world that a tool's call may change.
pub mod Tool
pub mod Registry
