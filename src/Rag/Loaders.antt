-- ===== src/Rag/Loaders.antt =====
-- src/rag/loaders: text_loader.cpp, markdown_loader.cpp, web_loader.cpp and pdf_loader.cpp. A file is
-- its bytes, none where it cannot be opened; cpr::Get is a parameter; a PDF is what poppler reads of
-- it: its pages' texts, a page that cannot be created being none.
use langchain_cpp.Base.{
  ℕ, suc, List, [], ◌∷◌, ◌++◌, map, Option, none, some, not, ◌==◌, if◌then◌else◌,
}
use langchain_cpp.Base.Text.{Text, codes}
use langchain_cpp.Base.Decimal.{to_string}
use langchain_cpp.Base.Dict.{insert}
use langchain_cpp.Base.Http.{Response}
use langchain_cpp.Base.Json.{Json, natural}
use langchain_cpp.Base.Outcome.{Outcome, ok, throws, ◌>>=◌}
use langchain_cpp.Base.Exec.{Exec}
use langchain_cpp.Rag.Document.{Document}
use langchain_cpp.Rag.Html.{html_to_text}

-- TextLoader::read_file
unfoldable pub read_file : Text → Option Text → Outcome Text
read_file path none = throws (codes "TextLoader: could not open file: " ++ path)
read_file path (some content) = ok content

module _ (J : Json) where
  open J use {Value, string, integer}

  -- TextLoader::load
  unfoldable pub load_text : Text → Option Text → Outcome (List (Document Value))
  unfolding read_file
  load_text path file = read_file path file >>= λ content.
      ok (record { content = content; metadata = (codes "source", string path) ∷ [] } ∷ [])

  unfoldable pub as_markdown : Document Value → Document Value
  as_markdown d = record d {
    metadata = insert (codes "type") (string (codes "markdown")) d.metadata;
  }

  -- MarkdownLoader::load
  unfoldable pub load_markdown : Text → Option Text → Outcome (List (Document Value))
  unfolding load_text as_markdown
  load_markdown path file = load_text path file >>= λ documents. ok (map as_markdown documents)

  unfoldable pub page_documents : Text → ℕ → List (Option Text) → List (Document Value)
  page_documents path i [] = []
  page_documents path i (none ∷ pages) = page_documents path (suc i) pages
  page_documents path i (some text ∷ pages) =
      record {
        content = text;
        metadata = (codes "source", string path) ∷ (codes "page", integer (natural i)) ∷ [];
      }
      ∷ page_documents path (suc i) pages

  -- PdfLoader::load
  unfoldable pub load_pdf : Text → Option (List (Option Text)) → Outcome (List (Document Value))
  unfolding page_documents
  load_pdf path none = throws (codes "PdfLoader: could not open file as a PDF: " ++ path)
  load_pdf path (some pages) = ok (page_documents path 0 pages)

  unfoldable pub page_of : Text → Response → Outcome (List (Document Value))
  page_of url response =
      if not (response.status_code == 200)
      then throws (
          codes "WebLoader: request failed (HTTP "
          ++ (to_string response.status_code ++ (codes "): " ++ url)))
      else ok (
          record {
            content = html_to_text response.body;
            metadata = (codes "source", string url) ∷ [];
          }
          ∷ [])

  -- WebLoader::load
  unfoldable pub load_web :
      {W : Type 0} → (Text → W → Response × W) → Text → Exec W (List (Document Value))
  unfolding page_of
  load_web get url w = let (response, w') = get url w in (page_of url response, w')
