-- ===== src/Rag/PgVector/Statements.antt =====
-- What an insertion sends, and what a search reads.
use langchain_cpp.Base.{
  ℕ, zero, suc, ◌+◌, ◌*◌, ◌≡◌, subst, List, [], ◌∷◌, map, Option, some, get_elem?, arith,
}
use langchain_cpp.Base.Text.{Text}
use langchain_cpp.Base.Dict.{Dict}
use langchain_cpp.Base.Json.{Json, RoundTrips}
use langchain_cpp.Base.Outcome.{ok, traverse, traverse-map}
use langchain_cpp.Rag.Document.{Document}
use langchain_cpp.Rag.PgVectorSql.{format_vector_literal}
use langchain_cpp.Rag.PgVector.{insert_params, row_document}

three_on :
    (a b c : Text) (rest : List Text) (n m : ℕ) (t : Text)
    → m ≡ suc (suc (suc n))
    → get_elem? rest n ≡ some t
    → get_elem? (a ∷ b ∷ c ∷ rest) m ≡ some t
three_on a b c rest n m t e h =
    subst (λ k. get_elem? (a ∷ b ∷ c ∷ rest) k ≡ some t) {x = suc (suc (suc n))} (omega (arith, e))
      h

module _ (J : Json) {X : Type 0} (show : X → Text) where
  open J use {Value, object, dump}

  -- The document's parameters from its first on.
  abbrev pub SentAt : List Text → ℕ → Document Value → List X → Type 0
  SentAt ps i d v =
      (get_elem? ps (i * 3) ≡ some d.content)
      × (get_elem? ps (i * 3 + 1) ≡ some (dump (object d.metadata)))
      × (get_elem? ps (i * 3 + 2) ≡ some (format_vector_literal show v))

  -- The parameters of the document `i`, counted from 0, are those that its placeholders in the
  -- statement number from 1: its content, its metadata as JSON, and its vector.
  pub insert_params-SentAt :
      (documents : List (Document Value)) (vectors : List (List X)) (i : ℕ) (d : Document Value)
      (v : List X)
      → get_elem? documents i ≡ some d
      → get_elem? vectors i ≡ some v
      → SentAt (insert_params J show documents vectors) i d v
  unfolding insert_params
  insert_params-SentAt [] vectors i d v e f = ground arith
  insert_params-SentAt (x ∷ documents) [] i d v e f = ground arith
  insert_params-SentAt (x ∷ documents) (y ∷ vectors) zero d v e f = ground arith
  insert_params-SentAt (x ∷ documents) (y ∷ vectors) (suc i) d v e f =
      let (p, q, r) = insert_params-SentAt documents vectors i d v e f in
      let next =
        three_on x.content (dump (object x.metadata)) (format_vector_literal show y)
          (insert_params J show documents vectors) in
      (
        next (i * 3) (suc i * 3) d.content (omega arith) p,
        next (i * 3 + 1) (suc i * 3 + 1) (dump (object d.metadata)) (omega arith) q,
        next (i * 3 + 2) (suc i * 3 + 2) (format_vector_literal show v) (omega arith) r,
      )

module _ (J : Json) (members : J.Value → Dict J.Value) where
  open J use {Value, object, dump}

  -- The row that an insertion stores for a document.
  abbrev pub stored_row : Document Value → List (Option Text)
  stored_row d = some d.content ∷ some (dump (object d.metadata)) ∷ []

  -- The rows that were stored for documents are read back as the documents, in the order of the rows.
  pub rows_round_trip :
      RoundTrips J
      → ((fs : Dict Value) → members (object fs) ≡ fs)
      → (documents : List (Document Value))
      → traverse (row_document J members) (map stored_row documents) ≡ ok documents
  unfolding row_document
  rows_round_trip r m documents =
      traverse-map (row_document J members) stored_row documents (λ d. simp (r.parse-dump, m))
