-- ===== src/Core.antt =====
-- include/langchain/core and src/core.
pub mod Message
pub mod Runnable
pub mod Callbacks
pub mod Dotenv
