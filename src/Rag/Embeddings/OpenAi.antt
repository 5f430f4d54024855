-- ===== src/Rag/Embeddings/OpenAi.antt =====
-- src/rag/embeddings/openai_embeddings_wire_format.cpp, openai_embeddings.cpp and
-- azure_openai_embeddings.cpp, over parameters for cpr::Post, std::sort and the JSON of vectors.
use langchain_cpp.Base.{Bool, not, List, [], ◌∷◌, ◌++◌, map, Option, ◌==◌, if◌then◌else◌, is_empty}
use langchain_cpp.Base.Text.{Text, codes}
use langchain_cpp.Base.Http.{Response, Send}
use langchain_cpp.Base.Json.{Json, Integer, at, get_integer}
use langchain_cpp.Base.Outcome.{Outcome, ok, throws, ◌>>=◌, traverse}
use langchain_cpp.Base.Exec.{Exec}
use langchain_cpp.Providers.Config.{resolve_from, failed_request}
use langchain_cpp.Providers.Azure.{strip_trailing_slash, build_azure_embeddings_url}
use langchain_cpp.Providers.OpenAi.Stream.{integer_less}
use langchain_cpp.Rag.Similarity.{Sort}
use langchain_cpp.Rag.Embeddings.{Embeddings, VectorJson, first_vector}

pub record OpenAiEmbeddingsConfig : Type 0 where
  pub model : Text
  pub api_key : Text
  pub base_url : Text

pub record AzureOpenAiEmbeddingsConfig : Type 0 where
  pub deployment : Text
  pub endpoint : Text
  pub api_key : Text
  pub api_version : Text

-- The constructor of OpenAIEmbeddings; `env` is what getenv finds.
abbrev pub openai_embeddings : Option Text → OpenAiEmbeddingsConfig → Outcome OpenAiEmbeddingsConfig
openai_embeddings env config =
    resolve_from env (codes "OpenAIEmbeddings: no api_key provided and OPENAI_API_KEY is not set")
      config.api_key
    >>= λ key. ok (record config { api_key = key })

-- `env` is what getenv finds under a name.
unfoldable pub resolve : (Text → Option Text) → Text → Text → Text → Outcome Text
resolve env configured env_name what =
    resolve_from (env env_name)
      (codes "AzureOpenAIEmbeddings: no "
        ++ (what ++ (codes " provided and " ++ (env_name ++ codes " is not set"))))
      configured

-- The constructor of AzureOpenAIEmbeddings.
unfoldable pub azure_embeddings :
    (Text → Option Text) → AzureOpenAiEmbeddingsConfig → Outcome AzureOpenAiEmbeddingsConfig
unfolding resolve
azure_embeddings env config =
    if is_empty config.deployment
    then throws
        (codes "AzureOpenAIEmbeddings: deployment must be set to your Azure OpenAI deployment name")
    else (resolve env config.api_key (codes "AZURE_OPENAI_API_KEY") (codes "api_key") >>= λ key.
        resolve env config.endpoint (codes "AZURE_OPENAI_ENDPOINT") (codes "endpoint")
        >>= λ endpoint.
            ok (record config { api_key = key; endpoint = strip_trailing_slash endpoint }))

module _ (J : Json) where
  open J use {Value, array, object, string, elements, dump, parse}

  unfoldable pub build_openai_embeddings_body : Text → List Text → Value
  build_openai_embeddings_body model texts =
      object ((codes "model", string model) ∷ (codes "input", array (map string texts)) ∷ [])

  module _ {X : Type 0} (V : VectorJson J X) (sort : Sort) where
    -- An entry with its index. A missing index, which is undefined behaviour there, throws here.
    unfoldable pub entry_index : Value → Outcome (Integer × Value)
    entry_index entry = at J (codes "index") entry >>= get_integer J >>= λ index. ok (index, entry)

    abbrev pub index_less : Integer × Value → Integer × Value → Bool
    index_less (i, a) (j, b) = integer_less i j

    -- The entries by their index, which is read of all of them where there are two or more.
    unfoldable pub sorted_entries : List Value → Outcome (List Value)
    unfolding entry_index
    sorted_entries [] = ok []
    sorted_entries (entry ∷ []) = ok (entry ∷ [])
    sorted_entries (a ∷ b ∷ entries) = traverse entry_index (a ∷ b ∷ entries) >>= λ indexed.
        ok (map (λ e. e.1) (sort (Integer × Value) index_less indexed))

    unfoldable pub entry_vector : Value → Outcome (List X)
    entry_vector entry = at J (codes "embedding") entry >>= V.get_vector

    unfoldable pub parse_openai_embeddings_response : Value → Outcome (List (List X))
    unfolding sorted_entries entry_vector
    parse_openai_embeddings_response response = do
      entries ← at J (codes "data") response
      sorted ← sorted_entries (elements entries)
      traverse entry_vector sorted

    unfoldable pub reply : Text → Response → Outcome (List (List X))
    unfolding parse_openai_embeddings_response
    reply name response =
        if not (response.status_code == 200)
        then throws (failed_request (name ++ codes ": request") response)
        else (parse response.body >>= parse_openai_embeddings_response)

    module _ {W : Type 0} (post : Send W) where
      -- OpenAIEmbeddings::embed_documents
      unfoldable pub embed_documents : OpenAiEmbeddingsConfig → List Text → Exec W (List (List X))
      unfolding reply
      embed_documents config texts w =
          let (response, w') =
            post (config.base_url ++ codes "/embeddings")
              ((codes "Authorization", codes "Bearer " ++ config.api_key)
                ∷ (codes "Content-Type", codes "application/json")
                ∷ [])
              (dump (build_openai_embeddings_body config.model texts)) w in
          (reply (codes "OpenAIEmbeddings") response, w')

      -- AzureOpenAIEmbeddings::embed_documents
      unfoldable pub azure_embed_documents :
          AzureOpenAiEmbeddingsConfig → List Text → Exec W (List (List X))
      unfolding reply
      azure_embed_documents config texts w =
          let (response, w') =
            post (build_azure_embeddings_url config.endpoint config.deployment config.api_version)
              ((codes "api-key", config.api_key)
                ∷ (codes "Content-Type", codes "application/json")
                ∷ [])
              (dump (build_openai_embeddings_body config.deployment texts)) w in
          (reply (codes "AzureOpenAIEmbeddings") response, w')

      abbrev pub openai : OpenAiEmbeddingsConfig → Embeddings X W
      openai config = record {
        embed_query = first_vector (embed_documents config);
        embed_documents = embed_documents config;
      }

      abbrev pub azure : AzureOpenAiEmbeddingsConfig → Embeddings X W
      azure config = record {
        embed_query = first_vector (azure_embed_documents config);
        embed_documents = azure_embed_documents config;
      }
