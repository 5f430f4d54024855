-- ===== src/Lib.antt =====
-- langchain-cpp: a model of the library's own logic and theorems about it. Exceptions that derive
-- from std::exception are values (Base.Outcome), and calls that read or change something outside
-- themselves take the world and return it (Base.Exec). A text is a list of byte values (Base.Text),
-- and nlohmann::json, which is not part of the repository, is a record of operations with their
-- documented laws (Base.Json), which the definitions take as a parameter; Base.Json.Sample is an
-- instance. RoundTrips, that parse undoes dump, is a hypothesis where it is used, for values that
-- hold valid UTF-8 and no NaN. What parse throws is a parse_error or another exception, which the
-- catch clauses for parse_error let through (is_parse_error); where dump stands in a loop that an
-- exception ends, that it may throw is modelled too (printed). A request that cpr sends is a function from URL, headers, body and
-- world to a response (Base.Http).
--
-- Base: shared names, tests, lists, texts, dictionaries, joins, decimals, JSON, HTTP.
-- Core.Message: include/langchain/core/message.hpp and src/core/message.cpp: the data model, base64
--   (Message.Base64), the media types (Message.MediaType), ImageContent::from_file.
-- Core.Runnable: include/langchain/core/runnable.hpp. Core.Callbacks: src/core/callbacks.cpp.
-- Core.Dotenv: src/core/dotenv.cpp.
-- Tools.Tool, Tools.Registry: include/langchain/core/result.hpp, include/langchain/tools, src/tools.
-- Llm.ChatModel: include/langchain/llm/chat_model.hpp, the interface that the others use.
-- Llm.History, Llm.FileHistory, Llm.Caching: the histories and the cache of src/llm.
-- Llm.RateLimiter: src/llm/rate_limiter.cpp and rate_limited_chat_model.cpp, over the readings of the
--   clock and a record of operations for double.
-- Llm.Callbacking: the wrappers of src/callbacks.
-- Agents.Executor: src/agents/agent_executor.cpp, over a model and a registry.
-- Prompts.Template, Prompts.FewShot: src/prompts. Parsers.Json, Parsers.OutputFixing: src/parsers
--   and include/langchain/parsers.
-- Providers.OpenAi, Providers.OpenAi.Stream: src/providers/openai/openai_wire_format.cpp.
--   Providers.OpenAi.Chat: src/providers/openai/openai_chat.cpp, whose stream hands the chunks that
--   cpr delivers to the parser. Providers.OpenAi.Presets: openai_compatible_presets.cpp.
-- Providers.Azure: src/providers/azure, which shares OpenAI's wire format and stream.
-- Providers.Anthropic: src/providers/anthropic. Providers.Gemini, Providers.Gemini.Chat:
--   src/providers/google. Providers.Mock: src/providers/mock. Providers.Config: what the constructors
--   and the requests of these clients share.
-- Mcp.JsonRpc, Mcp.Protocol: src/mcp/jsonrpc.cpp and src/mcp/mcp_protocol.cpp.
-- Mcp.Server: src/mcp/mcp_server.cpp, over the registry. Mcp.Client: src/mcp/mcp_client.cpp and
--   src/mcp/mcp_tools.cpp, over a transport, which Mcp.StdioClient (src/mcp/stdio_client_transport.cpp)
--   and Mcp.HttpClient (src/mcp/http_client_transport.cpp, with Mcp.Sse) are. Mcp.StdioTransport:
--   src/mcp/stdio_transport.cpp, the lines that Mcp.StdioClient reads and writes. Mcp.HttpRequest
--   and Mcp.HttpServer: src/mcp/mcp_http_server.cpp, which hands messages to the server.
-- Rag.Document: include/langchain/core/document.hpp. Rag.Splitter: src/rag/splitters.
-- Rag.Csv: src/rag/loaders/csv_parser.cpp and csv_loader.cpp. Rag.Html: html_to_text.cpp there.
--   Rag.Loaders: the other loaders of that directory. Rag.Format: src/rag/format_documents.cpp.
-- Rag.Embeddings: include/langchain/rag/embeddings/embeddings.hpp; OpenAi (with Azure), Gemini and
--   Mock: the files of src/rag/embeddings. Rag.Similarity: src/core/similarity.cpp and the sort of the
--   in-memory search.
-- Rag.VectorStore: src/rag/vectorstores/vector_store.cpp and src/rag/retrievers. Its stores are
--   Rag.InMemoryStore (with src/prompts/semantic_similarity_example_selector.cpp), Rag.Faiss,
--   Rag.PgVector (with Rag.PgVectorSql) and Rag.Qdrant (with Qdrant.Store), each the files of its name in
--   src/rag/vectorstores.
-- Tests: the theorems at concrete inputs.
--
-- Fuel: render_from (Prompts.Template), split_from (Rag.Splitter), add_headers (Mcp.HttpRequest) and
-- drain (Providers.OpenAi.Stream) run on the length of the text that is left, and remove_from and
-- replace_all (Rag.Html) on that length and one more; each of their rounds passes at least one byte
-- of it. digits_onto (Base.Decimal) has one unit more than the number. AgentExecutor's loop is a
-- recursion on max_steps, as in the source, and the destructor's wait (Mcp.StdioTransport) one on its
-- 25 rounds. RateLimiter::acquire runs on the readings of the clock, which may be endless in the
-- source: where they end, the model says that it still waits.
--
-- Not modelled: threads and futures (ainvoke, the HTTP server's thread), mutexes, sockets, fork, pipes
-- and exec, opening and closing a connection to PostgreSQL, and the example programs. Floating-point
-- arithmetic, std::sort, std::hash, the random engine, and the calls of cpr, libpq, FAISS and poppler
-- are parameters where they appear. Sizes are natural numbers: no text is near 2^64 bytes, and a
-- client sends fewer than 2^31 requests.
pub mod Base
pub mod Core
pub mod Tools
pub mod Llm
pub mod Agents
pub mod Prompts
pub mod Parsers
pub mod Rag
pub mod Mcp
pub mod Providers
pub mod Tests
