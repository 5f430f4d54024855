-- ===== src/Rag/Qdrant/Store.antt =====
-- src/rag/vectorstores/qdrant_vector_store.cpp, over parameters for cpr's calls, the random engine,
-- the JSON of vectors and the members of a JSON object.
pub mod Searches
use langchain_cpp.Base.{
  ℕ, zero, suc, Bool, true, false, not, List, [], ◌∷◌, ◌++◌, map, ◌==◌, if◌then◌else◌, is_empty,
  length,
}
use langchain_cpp.Base.Text.{Text, codes}
use langchain_cpp.Base.Decimal.{to_string}
use langchain_cpp.Base.Dict.{Dict}
use langchain_cpp.Base.Http.{Response, Send}
use langchain_cpp.Base.Json.{Json}
use langchain_cpp.Base.Outcome.{Outcome, ok, throws}
use langchain_cpp.Base.Exec.{Exec, pure, raise, lift, continue, ◌>>=◌, ◌>>◌}
use langchain_cpp.Rag.Document.{Document}
use langchain_cpp.Rag.Embeddings.{Embeddings, VectorJson}
use langchain_cpp.Rag.VectorStore.{VectorStore}
use langchain_cpp.Rag.Qdrant.{
  generate_uuid_v4, build_create_collection_body, build_upsert_points_body, build_search_body,
  read_search_response,
}

pub record QdrantConfig : Type 0 where
  pub url : Text
  pub collection_name : Text
  pub api_key : Text

-- collection_ready_, and the world `W` of the server, the embeddings and the random engine
pub record QdrantState (W : Type 0) : Type 0 where
  pub collection_ready : Bool
  pub rest : W

-- cpr::Get, Put and Post, and sixteen bytes of the random engine
pub record Outside (W : Type 0) : Type 0 where
  pub get : Text → Dict Text → W → Response × W
  pub put : Send W
  pub post : Send W
  pub random_bytes : W → List ℕ × W

abbrev pub request_headers : QdrantConfig → Dict Text
request_headers config =
    if is_empty config.api_key
    then (codes "Content-Type", codes "application/json") ∷ []
    else (codes "Content-Type", codes "application/json") ∷ (codes "api-key", config.api_key) ∷ []

abbrev pub collection_url : QdrantConfig → Text
collection_url config = config.url ++ (codes "/collections/" ++ config.collection_name)

abbrev pub checked : Text → Response → Outcome Response
checked what response =
    if not (response.status_code == 200)
    then throws (
        codes "QdrantVectorStore: "
        ++ (what
            ++ (codes " (HTTP "
                ++ (to_string response.status_code ++ (codes "): " ++ response.body)))))
    else ok response

abbrev pub on_rest : {W A : Type 0} → Exec W A → Exec (QdrantState W) A
on_rest f s = let (r, w) = f s.rest in (r, record s { rest = w })

abbrev pub set_ready : {W : Type 0} → Bool → Exec (QdrantState W) (Unit {0})
set_ready ready s = (ok tt, record s { collection_ready = ready })

-- vectors.front().size()
abbrev pub front_size : {X : Type 0} → List (List X) → ℕ
front_size [] = 0
front_size (v ∷ vs) = length v

module _ (J : Json) {X W : Type 0} (V : VectorJson J X) (members : J.Value → Dict J.Value)
    (outside : Outside W) (embeddings : Embeddings X W) (config : QdrantConfig) where
  open J use {Value, dump}

  unfoldable pub ask_collection : Exec (QdrantState W) Bool
  ask_collection s =
      let (response, w) = outside.get (collection_url config) (request_headers config) s.rest in
      let ready = response.status_code == 200 in
      (ok ready, record { collection_ready = ready; rest = w })

  -- QdrantVectorStore::collection_exists
  unfoldable pub collection_exists : Exec (QdrantState W) Bool
  unfolding ask_collection
  collection_exists s = if s.collection_ready then (ok true, s) else ask_collection s

  abbrev pub sent : Text → (W → Response × W) → Exec (QdrantState W) Response
  sent what call s =
      let (response, w) = call s.rest in (checked what response, record s { rest = w })

  unfoldable pub create_collection : ℕ → Exec (QdrantState W) (Unit {0})
  create_collection dimension = do
    response ← sent (codes "failed to create collection") (
        outside.put (collection_url config) (request_headers config)
          (dump (build_create_collection_body J dimension)))
    set_ready true

  -- QdrantVectorStore::ensure_collection_exists
  unfoldable pub ensure_collection_exists : ℕ → Exec (QdrantState W) (Unit {0})
  unfolding collection_exists create_collection
  ensure_collection_exists dimension =
      collection_exists >>= λ exists. if exists then pure tt else create_collection dimension

  -- An id for each of `n` documents.
  unfoldable pub generate_ids : ℕ → W → List Text × W
  generate_ids zero w = ([], w)
  generate_ids (suc n) w =
      let (bytes, w') = outside.random_bytes w in
      let (ids, w'') = generate_ids n w' in (generate_uuid_v4 bytes ∷ ids, w'')

  abbrev pub new_ids : ℕ → Exec (QdrantState W) (List Text)
  new_ids n = on_rest (λ w. let (ids, w') = generate_ids n w in (ok ids, w'))

  unfoldable pub upsert : List (Document Value) → Exec (QdrantState W) (Unit {0})
  unfolding ensure_collection_exists generate_ids
  upsert documents = do
    vectors ← on_rest (embeddings.embed_documents (map (λ d. d.content) documents))
    ready ← ensure_collection_exists (front_size vectors)
    ids ← new_ids (length documents)
    response ← sent (codes "failed to upsert points") (
        outside.put (collection_url config ++ codes "/points?wait=true") (request_headers config)
          (dump (build_upsert_points_body J V ids vectors documents)))
    pure tt

  -- QdrantVectorStore::add_documents
  unfoldable pub add_documents : List (Document Value) → Exec (QdrantState W) (Unit {0})
  unfolding upsert
  add_documents documents s = if is_empty documents then (ok tt, s) else upsert documents s

  unfoldable pub search_points : List X → ℕ → Exec (QdrantState W) (List (Document Value))
  search_points query_vector k = do
    response ← sent (codes "search failed") (
        outside.post (collection_url config ++ codes "/points/search") (request_headers config)
          (dump (build_search_body J V query_vector k)))
    lift (read_search_response J members response.body)

  -- QdrantVectorStore::similarity_search
  unfoldable pub similarity_search : Text → ℕ → Exec (QdrantState W) (List (Document Value))
  unfolding collection_exists search_points
  similarity_search query k = do
    query_vector ← on_rest (embeddings.embed_query query)
    exists ← collection_exists
    if not exists then pure [] else search_points query_vector k

  abbrev pub qdrant_store : VectorStore Value (QdrantState W)
  qdrant_store = record { add_documents = add_documents; similarity_search = similarity_search }
