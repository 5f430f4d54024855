-- ===== src/Rag/Format.antt =====
-- src/rag/format_documents.cpp.
use langchain_cpp.Base.{◌≡◌, List, [], map}
use langchain_cpp.Base.Text.{Text, codes}
use langchain_cpp.Base.Join.{join, append_parts, append_parts_lem, from_nonempty}
use langchain_cpp.Rag.Document.{Document}

-- FormatDocumentsAsString::invoke
unfoldable pub format_documents : {V : Type 0} → List (Document V) → Text
format_documents documents = append_parts (codes "\n\n") (map (λ d. d.content) documents) []

-- The contents in order, with a blank line between each two; empty contents that come before all the
-- others leave nothing behind.
pub format_documents_lem :
    {V : Type 0} (documents : List (Document V))
    → format_documents documents
      ≡ join (codes "\n\n") (from_nonempty (map (λ d. d.content) documents))
unfolding format_documents
format_documents_lem documents = append_parts_lem (codes "\n\n") (map (λ d. d.content) documents)
