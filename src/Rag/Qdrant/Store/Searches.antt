-- ===== src/Rag/Qdrant/Store/Searches.antt =====
-- Searches of a collection that the server does not show, and searches behind an insertion.
use langchain_cpp.Base.{
  ℕ, ◌≡◌, refl, Bool, true, false, List, [], ◌∷◌, ◌==◌, not, if◌then◌else◌, subst, arith,
}
use langchain_cpp.Base.Text.{Text}
use langchain_cpp.Base.Dict.{Dict}
use langchain_cpp.Base.Http.{Response}
use langchain_cpp.Base.Json.{Json}
use langchain_cpp.Base.Outcome.{Outcome, ok, throws}
use langchain_cpp.Base.Exec.{Exec, pure, continue, ◌>>=◌}
use langchain_cpp.Rag.Document.{Document}
use langchain_cpp.Rag.Embeddings.{Embeddings, VectorJson}
use langchain_cpp.Rag.Qdrant.Store.{
  QdrantConfig, QdrantState, Outside, request_headers, collection_url, ask_collection,
  collection_exists, similarity_search, create_collection, ensure_collection_exists, upsert,
  add_documents, search_points, on_rest,
}

-- What a call that returns leaves has seen the collection.
unfoldable Ready : {W A : Type 0} → Outcome A → QdrantState W → Type 0
Ready (ok a) s = s.collection_ready ≡ true
Ready (throws e) s = Unit

unfoldable Leaves : {W A : Type 0} → Outcome A × QdrantState W → Type 0
unfolding Ready
Leaves x = Ready x.0 x.1

continue-Ready :
    {W A B : Type 0} (r : Outcome A) (s : QdrantState W) (f : A → Exec (QdrantState W) B)
    → Ready r s
    → ((a : A) → s.collection_ready ≡ true → Leaves (f a s))
    → Leaves (continue r f s)
unfolding Ready Leaves
continue-Ready (ok a) s f h g = g a h
continue-Ready (throws e) s f h g = tt

any-Ready :
    {W A B : Type 0} (r : Outcome A) (s : QdrantState W) (f : A → Exec (QdrantState W) B)
    → ((a : A) → Leaves (f a s))
    → Leaves (continue r f s)
unfolding Ready Leaves
any-Ready (ok a) s f g = g a
any-Ready (throws e) s f g = tt

ok-Leaves :
    {W A : Type 0} (a : A) (s : QdrantState W)
    → s.collection_ready ≡ true
    → Leaves {A = A} (ok a, s)
unfolding Leaves Ready
ok-Leaves a s h = h

checked-Ready :
    {W : Type 0} (r : Outcome Response) (s : QdrantState W) → s.collection_ready ≡ true → Ready r s
unfolding Ready
checked-Ready (ok a) s h = h
checked-Ready (throws a) s h = tt

module _ (J : Json) {X W : Type 0} (V : VectorJson J X) (members : J.Value → Dict J.Value)
    (outside : Outside W) (embeddings : Embeddings X W) (config : QdrantConfig) where
  open J use {Value}

  create-Ready :
      (n : ℕ) (s : QdrantState W)
      → Leaves (create_collection J V members outside embeddings config n s)
  unfolding create_collection
  create-Ready n s = search (any-Ready, ok-Leaves)

  unless-Ready :
      (exists : Bool) (n : ℕ) (s : QdrantState W)
      → (exists ≡ true → s.collection_ready ≡ true)
      → Leaves (
          continue
            (ok exists)
            (λ e.
              if e
              then (λ s. (ok tt, s))
              else create_collection J V members outside embeddings config n)
            s)
  unless-Ready true n s h = ok-Leaves _ _ (h refl)
  unless-Ready false n s h = create-Ready n s

  ensure_on :
      (ready : Bool) (n : ℕ) (w : W)
      → Leaves (
          ensure_collection_exists J V members outside embeddings config n
            (record { collection_ready = ready; rest = w }))
  unfolding ensure_collection_exists collection_exists ask_collection
  ensure_on true n w = ok-Leaves tt (record { collection_ready = true; rest = w }) refl
  ensure_on false n w =
      let x = outside.get (collection_url config) (request_headers config) w in
      let b = x.0.status_code == 200 in
      unless-Ready b n (record { collection_ready = b; rest = x.1 }) (λ h. h)

  ensure-Ready :
      (n : ℕ) (s : QdrantState W)
      → Leaves (ensure_collection_exists J V members outside embeddings config n s)
  ensure-Ready n s = ensure_on s.collection_ready n s.rest

  upsert-Ready :
      (documents : List (Document Value)) (s : QdrantState W)
      → Leaves (upsert J V members outside embeddings config documents s)
  unfolding upsert Leaves
  upsert-Ready documents s =
      search (any-Ready, continue-Ready, ensure-Ready, ok-Leaves, checked-Ready)

  searched :
      (r : Outcome (List X)) (w : W) (k : ℕ) (ready : Bool)
      → ready ≡ true
      → continue r
          (λ v. collection_exists J V members outside embeddings config >>= λ exists.
            if not exists then pure [] else search_points J V members outside embeddings config v k)
          (record { collection_ready = ready; rest = w })
        ≡ continue r
            (λ v. search_points J V members outside embeddings config v k)
            (record { collection_ready = ready; rest = w })
  unfolding collection_exists
  searched (ok v) w k true h = refl
  searched (ok v) w k false h = ground arith
  searched (throws e) w k ready h = refl

  -- Behind an addition of at least one document that returned, a search sends the search at once,
  -- without the question whether the collection exists.
  pub similarity_search_added :
      (document : Document Value) (documents : List (Document Value)) (query : Text) (k : ℕ)
      (s s' : QdrantState W)
      → add_documents J V members outside embeddings config (document ∷ documents) s ≡ (ok tt, s')
      → similarity_search J V members outside embeddings config query k s'
        ≡ (on_rest (embeddings.embed_query query) >>= λ v.
              search_points J V members outside embeddings config v k)
            s'
  unfolding similarity_search collection_exists add_documents Leaves Ready
  similarity_search_added document documents query k s s' e =
      let h = subst Leaves e (upsert-Ready (document ∷ documents) s) in
      searched (embeddings.embed_query query s'.rest).0 (embeddings.embed_query query s'.rest).1 k
        s'.collection_ready h

  -- Where the store has not seen its collection and the server answers the question for it with any
  -- status but 200, be it that of a refusal or of a failure, a search returns no documents, without an
  -- exception, and no search is sent.
  pub similarity_search_unseen :
      (query : Text) (k : ℕ) (query_vector : List X) (response : Response) (w w' w'' : W)
      → embeddings.embed_query query w ≡ (ok query_vector, w')
      → outside.get (collection_url config) (request_headers config) w' ≡ (response, w'')
      → (response.status_code == 200) ≡ false
      → similarity_search J V members outside embeddings config query k
          (record { collection_ready = false; rest = w })
        ≡ (ok [], record { collection_ready = false; rest = w'' })
  unfolding similarity_search collection_exists ask_collection
  similarity_search_unseen query k query_vector response w w' w'' e g s = rw (e, g, s) refl
