-- ===== src/Rag/PgVectorSql.antt =====
-- src/rag/vectorstores/pgvector_sql.cpp.
use langchain_cpp.Base.{ℕ, ◌+◌, ◌*◌, List, ◌++◌, map}
use langchain_cpp.Base.Text.{Text, codes}
use langchain_cpp.Base.Decimal.{to_string}
use langchain_cpp.Base.Join.{join}
use langchain_cpp.Rag.Similarity.{iota}

-- `show` is operator<< on a float.
unfoldable pub format_vector_literal : {X : Type 0} → (X → Text) → List X → Text
format_vector_literal show vector = codes "[" ++ (join (codes ",") (map show vector) ++ codes "]")

abbrev pub build_create_table_sql : Text → ℕ → Text
build_create_table_sql table_name dimension =
    codes "CREATE TABLE IF NOT EXISTS "
    ++ (table_name
        ++ (codes " (id UUID PRIMARY KEY DEFAULT gen_random_uuid(), content TEXT NOT NULL, "
            ++ (codes "metadata JSONB NOT NULL DEFAULT '{}'::jsonb, embedding VECTOR("
                ++ (to_string dimension ++ codes ") NOT NULL)"))))

-- The placeholders of the document `i`.
unfoldable pub insert_group : ℕ → Text
insert_group i =
    let base = i * 3 in
    codes "($"
    ++ (to_string (base + 1)
        ++ (codes ", $"
            ++ (to_string (base + 2)
                ++ (codes "::jsonb, $" ++ (to_string (base + 3) ++ codes "::vector)")))))

unfoldable pub build_insert_sql : Text → ℕ → Text
unfolding insert_group
build_insert_sql table_name document_count =
    codes "INSERT INTO "
    ++ (table_name
        ++ (codes " (content, metadata, embedding) VALUES "
            ++ join (codes ", ") (map insert_group (iota 0 document_count))))

abbrev pub build_search_sql : Text → ℕ → Text
build_search_sql table_name k =
    codes "SELECT content, metadata FROM "
    ++ (table_name ++ (codes " ORDER BY embedding <=> $1::vector LIMIT " ++ to_string k))

abbrev pub build_table_exists_sql : Text → Text
build_table_exists_sql table_name = codes "SELECT to_regclass('" ++ (table_name ++ codes "')")
