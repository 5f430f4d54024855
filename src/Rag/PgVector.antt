-- ===== src/Rag/PgVector.antt =====
-- src/rag/vectorstores/pgvector_store.cpp. PQexecParams is a parameter, which gives a result for a
-- statement and its parameters, and `members` are the members of a JSON object; connecting is not
-- modelled.
pub mod Statements
use langchain_cpp.Base.{
  ℕ, zero, suc, Bool, true, false, not, ◌+◌, ◌*◌, List, [], ◌∷◌, ◌++◌, map, Option, none, some,
  if◌then◌else◌, is_empty, length,
}
use langchain_cpp.Base.Text.{Text, codes}
use langchain_cpp.Base.Decimal.{to_string}
use langchain_cpp.Base.Dict.{Dict}
use langchain_cpp.Base.Join.{join}
use langchain_cpp.Base.Json.{Json}
use langchain_cpp.Base.Outcome.{Outcome, ok, throws, traverse}
use langchain_cpp.Base.Exec.{Exec, pure, raise, lift, continue, ◌>>=◌, ◌>>◌}
use langchain_cpp.Rag.Document.{Document}
use langchain_cpp.Rag.Embeddings.{Embeddings}
use langchain_cpp.Rag.Similarity.{iota}
use langchain_cpp.Rag.VectorStore.{VectorStore}
use langchain_cpp.Rag.PgVectorSql.{
  format_vector_literal, build_create_table_sql, build_insert_sql, build_search_sql,
  build_table_exists_sql,
}

-- PGRES_COMMAND_OK, PGRES_TUPLES_OK, and any other
pub data Status : Type 0 where
  command_ok tuples_ok other_status : Status

abbrev pub status_eq : Status → Status → Bool
status_eq command_ok command_ok = true
status_eq tuples_ok tuples_ok = true
status_eq other_status other_status = true
status_eq _ _ = false

-- A result, with its rows and what PQerrorMessage says; a null is none.
pub record PgResult : Type 0 where
  pub status : Status
  pub error : Text
  pub rows : List (List (Option Text))

-- table_ready_, and the world `W` of the database and the embeddings
pub record PgState (W : Type 0) : Type 0 where
  pub table_ready : Bool
  pub rest : W

abbrev pub on_rest : {W A : Type 0} → Exec W A → Exec (PgState W) A
on_rest f s = let (r, w) = f s.rest in (r, record s { rest = w })

abbrev pub set_ready : {W : Type 0} → Bool → Exec (PgState W) (Unit {0})
set_ready ready s = (ok tt, record s { table_ready = ready })

-- PQntuples(result) > 0 && PQgetisnull(result, 0, 0) == 0
abbrev pub has_value : List (List (Option Text)) → Bool
has_value [] = false
has_value ([] ∷ rows) = false
has_value ((none ∷ row) ∷ rows) = false
has_value ((some v ∷ row) ∷ rows) = true

abbrev pub checked : Text → Status → PgResult → Outcome PgResult
checked what expected result =
    if not (status_eq result.status expected)
    then throws (codes "PgVectorStore: " ++ (what ++ (codes " failed: " ++ result.error)))
    else ok result

-- PQgetvalue, which is an empty text for a null
abbrev pub value_of : Option Text → Text
value_of none = []
value_of (some v) = v

abbrev pub column : ℕ → List (Option Text) → Text
column i [] = []
column zero (v ∷ row) = value_of v
column (suc i) (v ∷ row) = column i row

module _ (J : Json) {X : Type 0} (show : X → Text) where
  open J use {Value, object, dump}

  -- param_storage; there is a vector for each document.
  unfoldable pub insert_params : List (Document Value) → List (List X) → List Text
  insert_params [] vectors = []
  insert_params (d ∷ documents) [] = []
  insert_params (d ∷ documents) (v ∷ vectors) =
      d.content
      ∷ dump (object d.metadata)
      ∷ format_vector_literal show v
      ∷ insert_params documents vectors

module _ (J : Json) (members : J.Value → Dict J.Value) where
  open J use {Value, parse}

  abbrev pub parsed_document : Text → Outcome Value → Outcome (Document Value)
  parsed_document content (throws e) = throws e
  parsed_document content (ok v) = ok (record { content = content; metadata = members v })

  unfoldable pub row_document : List (Option Text) → Outcome (Document Value)
  row_document row = parsed_document (column 0 row) (parse (column 1 row))

module _ (J : Json) {X W : Type 0} (show : X → Text)
    (query_params : Text → List Text → W → PgResult × W) (embeddings : Embeddings X W)
    (table_name : Text) (members : J.Value → Dict J.Value) where
  open J use {Value}

  unfoldable pub exec_checked : Text → List Text → Status → Text → Exec (PgState W) PgResult
  exec_checked sql params expected what s =
      let (result, w) = query_params sql params s.rest in
      (checked what expected result, record s { rest = w })

  unfoldable pub ask_table : Exec (PgState W) Bool
  unfolding exec_checked
  ask_table = do
    result ←
        exec_checked (build_table_exists_sql table_name) [] tuples_ok
          (codes "checking whether the table exists")
    set_ready (has_value result.rows) >> pure (has_value result.rows)

  -- PgVectorStore::table_exists
  unfoldable pub table_exists : Exec (PgState W) Bool
  unfolding ask_table
  table_exists s = if s.table_ready then (ok true, s) else ask_table s

  unfoldable pub create_table : ℕ → Exec (PgState W) (Unit {0})
  unfolding exec_checked
  create_table dimension = do
    result ←
        exec_checked (build_create_table_sql table_name dimension) [] command_ok
          (codes "creating the table")
    set_ready true

  -- PgVectorStore::ensure_table_exists
  unfoldable pub ensure_table_exists : ℕ → Exec (PgState W) (Unit {0})
  unfolding table_exists create_table
  ensure_table_exists dimension =
      table_exists >>= λ exists. if exists then pure tt else create_table dimension

  -- vectors.front().size()
  abbrev pub front_size : List (List X) → ℕ
  front_size [] = 0
  front_size (v ∷ vs) = length v

  unfoldable pub insert_documents : List (Document Value) → Exec (PgState W) (Unit {0})
  unfolding ensure_table_exists insert_params exec_checked
  insert_documents documents = do
    vectors ← on_rest (embeddings.embed_documents (map (λ d. d.content) documents))
    ready ← ensure_table_exists (front_size vectors)
    result ←
        exec_checked (build_insert_sql table_name (length documents))
          (insert_params J show documents vectors) command_ok (codes "inserting documents")
    pure tt

  -- PgVectorStore::add_documents
  unfoldable pub add_documents : List (Document Value) → Exec (PgState W) (Unit {0})
  unfolding insert_documents
  add_documents documents s =
      if is_empty documents then (ok tt, s) else insert_documents documents s

  unfoldable pub search_table : List X → ℕ → Exec (PgState W) (List (Document Value))
  unfolding exec_checked row_document
  search_table query_vector k = do
    result ←
        exec_checked (build_search_sql table_name k) (format_vector_literal show query_vector ∷ [])
          tuples_ok (codes "searching")
    lift (traverse (row_document J members) result.rows)

  -- PgVectorStore::similarity_search
  unfoldable pub similarity_search : Text → ℕ → Exec (PgState W) (List (Document Value))
  unfolding table_exists search_table
  similarity_search query k = do
    query_vector ← on_rest (embeddings.embed_query query)
    exists ← table_exists
    if not exists then pure [] else search_table query_vector k

  abbrev pub pg_vector_store : VectorStore Value (PgState W)
  pg_vector_store = record { add_documents = add_documents; similarity_search = similarity_search }
