-- ===== src/Mcp.antt =====
-- include/langchain/mcp and src/mcp: the Model Context Protocol, its server and its client.
pub mod JsonRpc
pub mod Protocol
pub mod Server
pub mod Client
pub mod StdioClient
pub mod Sse
pub mod HttpClient
pub mod HttpRequest
pub mod HttpServer
pub mod StdioTransport
