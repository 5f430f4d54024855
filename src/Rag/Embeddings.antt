-- ===== src/Rag/Embeddings.antt =====
-- include/langchain/rag/embeddings/embeddings.hpp, and the wire formats and clients of
-- src/rag/embeddings, over parameters for cpr::Post, std::sort and the JSON of vectors.
pub mod OpenAi
pub mod Gemini
pub mod Mock
use langchain_cpp.Base.{
  ℕ, Bool, true, false, not, List, [], ◌∷◌, ◌++◌, map, Option, none, some, ◌==◌, if◌then◌else◌,
  is_empty,
}
use langchain_cpp.Base.Text.{Text, codes}
use langchain_cpp.Base.Dict.{Dict}
use langchain_cpp.Base.Http.{Response, Send}
use langchain_cpp.Base.Json.{Json, Integer, natural, at, get_integer}
use langchain_cpp.Base.Outcome.{Outcome, ok, throws}
use langchain_cpp.Base.Exec.{Exec, pure, ◌>>=◌}
use langchain_cpp.Providers.Config.{resolve_from, failed_request}

-- The JSON of a vector, and get<std::vector<float>>()
pub record VectorJson (J : Json) (X : Type 0) : Type 0 where
  pub vector : List X → J.Value
  pub get_vector : J.Value → Outcome (List X)

-- A vector is a list of `X`.
pub record Embeddings (X W : Type 0) : Type 0 where
  pub embed_query : Text → Exec W (List X)
  pub embed_documents : List Text → Exec W (List (List X))

-- Embeddings::embed_documents, for a client that does not override it
unfoldable pub default_embed_documents :
    {X W : Type 0} → (Text → Exec W (List X)) → List Text → Exec W (List (List X))
default_embed_documents embed_query [] = pure []
default_embed_documents embed_query (text ∷ texts) = do
  v ← embed_query text
  vs ← default_embed_documents embed_query texts
  pure (v ∷ vs)

-- embed_documents({text}).front(), where a service gives a vector for the text
abbrev pub front_vector : {X : Type 0} → Outcome (List (List X)) → Outcome (List X)
front_vector (throws e) = throws e
front_vector (ok []) = ok []
front_vector (ok (v ∷ vs)) = ok v

abbrev pub first_vector :
    {X W : Type 0} → (List Text → Exec W (List (List X))) → Text → Exec W (List X)
first_vector embed_documents text w =
    let (r, w') = embed_documents (text ∷ []) w in (front_vector r, w')
