-- ===== src/Rag/Qdrant/Points.antt =====
-- Documents through the payloads of a collection.
use langchain_cpp.Base.{◌≡◌, refl, List, [], ◌∷◌, length, arith}
use langchain_cpp.Base.Text.{Text, codes}
use langchain_cpp.Base.Dict.{Dict}
use langchain_cpp.Base.Json.{Json}
use langchain_cpp.Base.Outcome.{ok, traverse}
use langchain_cpp.Rag.Document.{Document}
use langchain_cpp.Rag.Embeddings.{VectorJson}
use langchain_cpp.Rag.Qdrant.{payload_of, point, points, item_document, parse_search_response}

module _ (J : Json) {X : Type 0} (V : VectorJson J X) (members : J.Value → Dict J.Value)
    (members-object : (fs : Dict J.Value) → members (J.object fs) ≡ fs) where
  open J use {Value}

  item :
      (id : Text) (v : List X) (d : Document Value)
      → item_document J members (point J V id v d) ≡ ok d
  unfolding item_document point payload_of
  item id v d = simp (J.is_object-object, J.find-object, J.as_string-string, members-object)

  all_items :
      (ids : List Text) (vectors : List (List X)) (documents : List (Document Value))
      → length ids ≡ length documents
      → length vectors ≡ length documents
      → traverse (item_document J members) (points J V ids vectors documents) ≡ ok documents
  unfolding traverse points
  all_items [] [] [] a b = refl
  all_items (id ∷ ids) (v ∷ vectors) (d ∷ documents) a b =
      rw (item id v d, all_items ids vectors documents (omega (arith, a)) (omega (arith, b))) refl
  all_items [] [] (d ∷ documents) a b = ground arith
  all_items [] (v ∷ vectors) [] a b = ground arith
  all_items [] (v ∷ vectors) (d ∷ documents) a b = ground arith
  all_items (id ∷ ids) [] documents a b = ground arith
  all_items (id ∷ ids) (v ∷ vectors) [] a b = ground arith

  -- A search that finds points as they were stored gives their documents back, contents and metadata,
  -- in the order found.
  pub search_stored :
      (ids : List Text) (vectors : List (List X)) (documents : List (Document Value))
      → length ids ≡ length documents
      → length vectors ≡ length documents
      → parse_search_response J members
          (J.object ((codes "result", J.array (points J V ids vectors documents)) ∷ []))
        ≡ ok documents
  unfolding parse_search_response
  search_stored ids vectors documents a b =
      simp
        (J.is_object-object, J.find-object, J.elements-array, all_items ids vectors documents a b)
