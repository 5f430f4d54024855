-- ===== src/Providers.antt =====
-- src/providers: the wire formats of the chat providers.
pub mod OpenAi
pub mod Config
pub mod Mock
pub mod Anthropic
pub mod Gemini
pub mod Azure
