-- ===== src/Rag/Document.antt =====
-- include/langchain/core/document.hpp. The metadata, a JSON object, is its members.
use langchain_cpp.Base.Dict.{Dict}
use langchain_cpp.Base.Text.{Text}

pub record Document (V : Type 0) : Type 0 where
  pub content : Text
  pub metadata : Dict V
