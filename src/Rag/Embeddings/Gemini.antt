-- ===== src/Rag/Embeddings/Gemini.antt =====
-- src/rag/embeddings/gemini_embeddings_wire_format.cpp and gemini_embeddings.cpp, over parameters for
-- cpr::Post and the JSON of vectors.
use langchain_cpp.Base.{not, List, [], ◌∷◌, ◌++◌, map, Option, ◌==◌, if◌then◌else◌}
use langchain_cpp.Base.Text.{Text, codes}
use langchain_cpp.Base.Dict.{Dict}
use langchain_cpp.Base.Http.{Response, Send}
use langchain_cpp.Base.Json.{Json, at}
use langchain_cpp.Base.Outcome.{Outcome, ok, throws, ◌>>=◌, traverse}
use langchain_cpp.Base.Exec.{Exec}
use langchain_cpp.Providers.Config.{resolve_from, failed_request}
use langchain_cpp.Rag.Embeddings.{Embeddings, VectorJson}

pub record GeminiEmbeddingsConfig : Type 0 where
  pub model : Text
  pub api_key : Text
  pub base_url : Text

-- The constructor; `env` is what getenv finds.
abbrev pub gemini_embeddings : Option Text → GeminiEmbeddingsConfig → Outcome GeminiEmbeddingsConfig
gemini_embeddings env config =
    resolve_from env (codes "GeminiEmbeddings: no api_key provided and GOOGLE_API_KEY is not set")
      config.api_key
    >>= λ key. ok (record config { api_key = key })

abbrev pub headers : GeminiEmbeddingsConfig → Dict Text
headers config =
    (codes "x-goog-api-key", config.api_key) ∷ (codes "Content-Type", codes "application/json") ∷ []

module _ (J : Json) where
  open J use {Value, array, object, string, elements, dump, parse}

  unfoldable pub content_for : Text → Value
  content_for text =
      object ((codes "parts", array (object ((codes "text", string text) ∷ []) ∷ [])) ∷ [])

  abbrev pub task_config : Text → Value
  task_config task_type = object ((codes "taskType", string task_type) ∷ [])

  unfoldable pub build_gemini_embed_content_body : Text → Text → Value
  unfolding content_for
  build_gemini_embed_content_body text task_type = object (
      (codes "content", content_for text)
      ∷ (codes "embedContentConfig", task_config task_type)
      ∷ [])

  unfoldable pub batch_request : Text → Text → Text → Value
  unfolding content_for
  batch_request model task_type text = object (
      (codes "model", string (codes "models/" ++ model))
      ∷ (codes "content", content_for text)
      ∷ (codes "embedContentConfig", task_config task_type)
      ∷ [])

  unfoldable pub build_gemini_batch_embed_contents_body : Text → List Text → Text → Value
  unfolding batch_request
  build_gemini_batch_embed_contents_body model texts task_type =
      object ((codes "requests", array (map (batch_request model task_type) texts)) ∷ [])

  module _ {X : Type 0} (V : VectorJson J X) where
    unfoldable pub parse_gemini_embed_content_response : Value → Outcome (List X)
    parse_gemini_embed_content_response response =
        at J (codes "embedding") response >>= at J (codes "values") >>= V.get_vector

    unfoldable pub embedding_values : Value → Outcome (List X)
    embedding_values embedding = at J (codes "values") embedding >>= V.get_vector

    unfoldable pub parse_gemini_batch_embed_contents_response : Value → Outcome (List (List X))
    unfolding embedding_values
    parse_gemini_batch_embed_contents_response response =
        at J (codes "embeddings") response >>= λ embeddings.
        traverse embedding_values (elements embeddings)

    abbrev pub reply : {A : Type 0} → (Value → Outcome A) → Response → Outcome A
    reply parse_reply response =
        if not (response.status_code == 200)
        then throws (failed_request (codes "GeminiEmbeddings: request") response)
        else (parse response.body >>= parse_reply)

    module _ {W : Type 0} (post : Send W) (config : GeminiEmbeddingsConfig) where
      -- GeminiEmbeddings::embed_query
      unfoldable pub embed_query : Text → Exec W (List X)
      embed_query text w =
          let (response, w') =
            post (config.base_url ++ (codes "/models/" ++ (config.model ++ codes ":embedContent")))
              (headers config)
              (dump (build_gemini_embed_content_body text (codes "RETRIEVAL_QUERY"))) w in
          (reply parse_gemini_embed_content_response response, w')

      -- GeminiEmbeddings::embed_documents
      unfoldable pub embed_documents : List Text → Exec W (List (List X))
      embed_documents texts w =
          let (response, w') =
            post
              (config.base_url
                ++ (codes "/models/" ++ (config.model ++ codes ":batchEmbedContents")))
              (headers config)
              (dump (
                build_gemini_batch_embed_contents_body config.model texts
                  (codes "RETRIEVAL_DOCUMENT")))
              w in
          (reply parse_gemini_batch_embed_contents_response response, w')

      abbrev pub gemini : Embeddings X W
      gemini = record { embed_query = embed_query; embed_documents = embed_documents }
