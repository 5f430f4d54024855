-- ===== src/Rag/Qdrant.antt =====
-- src/rag/vectorstores/qdrant_wire_format.cpp, over parameters for the JSON of vectors and the members
-- of a JSON object. The bytes of a UUID are what the random engine gives.
pub mod Points
pub mod Uuid
pub mod Store
use langchain_cpp.Base.{
  ℕ, zero, suc, ◌+◌, ◌/◌, ◌%◌, Bool, true, ◌||◌, List, [], ◌∷◌, ◌++◌, ◌==◌, ltb, if◌then◌else◌,
}
use langchain_cpp.Base.Text.{Text, codes}
use langchain_cpp.Base.Dict.{Dict}
use langchain_cpp.Base.Json.{Json, natural, value, value_string}
use langchain_cpp.Base.Outcome.{Outcome, ok, throws, traverse, ◌>>=◌}
use langchain_cpp.Rag.Document.{Document}
use langchain_cpp.Rag.Embeddings.{VectorJson}

-- bytes[6] and bytes[8], from the byte `i` on
unfoldable pub set_version : ℕ → List ℕ → List ℕ
set_version i [] = []
set_version i (b ∷ bytes) =
    let rest = set_version (suc i) bytes in
    (if i == 6 then b % 16 + 64 else if i == 8 then b % 64 + 128 else b) ∷ rest

abbrev pub hex_digit : ℕ → ℕ
hex_digit d = if ltb d 10 then d + b'0' else d + 87

-- %02x, of a byte
unfoldable pub hex_byte : ℕ → Text
hex_byte b = hex_digit (b / 16) ∷ hex_digit (b % 16) ∷ []

-- The format, from the byte `i` on.
unfoldable pub hex_bytes : ℕ → List ℕ → Text
unfolding hex_byte
hex_bytes i [] = []
hex_bytes i (b ∷ bytes) =
    let rest = hex_byte b ++ hex_bytes (suc i) bytes in
    if i == 4 || i == 6 || i == 8 || i == 10 then b'-' ∷ rest else rest

-- Of sixteen bytes.
unfoldable pub generate_uuid_v4 : List ℕ → Text
unfolding set_version hex_bytes
generate_uuid_v4 bytes = hex_bytes 0 (set_version 0 bytes)

module _ (J : Json) where
  open J use {Value, array, object, string, integer, boolean, elements, parse}

  abbrev pub build_create_collection_body : ℕ → Value
  build_create_collection_body dimension = object (
      (
        codes "vectors",
        object (
            (codes "size", integer (natural dimension))
            ∷ (codes "distance", string (codes "Cosine"))
            ∷ []),
      )
      ∷ [])

  unfoldable pub payload_of : Document Value → Value
  payload_of d =
      object ((codes "content", string d.content) ∷ (codes "metadata", object d.metadata) ∷ [])

  module _ {X : Type 0} (V : VectorJson J X) where
    unfoldable pub point : Text → List X → Document Value → Value
    unfolding payload_of
    point id v d = object (
        (codes "id", string id)
        ∷ (codes "vector", V.vector v)
        ∷ (codes "payload", payload_of d)
        ∷ [])

    -- The three lists have the same length.
    unfoldable pub points : List Text → List (List X) → List (Document Value) → List Value
    unfolding point
    points (id ∷ ids) (v ∷ vectors) (d ∷ documents) = point id v d ∷ points ids vectors documents
    points _ _ _ = []

    unfoldable pub build_upsert_points_body :
        List Text → List (List X) → List (Document Value) → Value
    unfolding points
    build_upsert_points_body ids vectors documents =
        object ((codes "points", array (points ids vectors documents)) ∷ [])

    abbrev pub build_search_body : List X → ℕ → Value
    build_search_body query_vector k = object (
        (codes "vector", V.vector query_vector)
        ∷ (codes "limit", integer (natural k))
        ∷ (codes "with_payload", boolean true)
        ∷ [])

  module _ (members : Value → Dict Value) where
    unfoldable pub item_document : Value → Outcome (Document Value)
    item_document item = do
      payload ← value J (codes "payload") item (object [])
      content ← value_string J (codes "content") payload []
      metadata ← value J (codes "metadata") payload (object [])
      ok (record { content = content; metadata = members metadata })

    unfoldable pub parse_search_response : Value → Outcome (List (Document Value))
    unfolding item_document
    parse_search_response response = value J (codes "result") response (array []) >>= λ items.
        traverse item_document (elements items)

    -- parse_search_response(json::parse(text))
    abbrev pub read_search_response : Text → Outcome (List (Document Value))
    read_search_response text = parse text >>= parse_search_response
