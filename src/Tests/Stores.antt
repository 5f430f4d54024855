-- ===== src/Tests/Stores.antt =====
-- Searches, ids and the rate limiter with numbers for the floating-point ones.
use langchain_cpp.Base.{
  ℕ, suc, ◌+◌, ◌-◌, ◌*◌, ◌<◌, ◌≡◌, refl, true, false, List, [], ◌∷◌, none, ◌==◌, ltb, leb, arith,
  All,
}
use langchain_cpp.Base.Text.{codes}
use langchain_cpp.Base.Decimal.{to_string}
use langchain_cpp.Base.Http.{Response}
use langchain_cpp.Base.Json.Sample.{Tree, sample}
use langchain_cpp.Base.Outcome.{ok}
use langchain_cpp.Base.Exec.{◌>>=◌}
use langchain_cpp.Rag.Document.{Document}
use langchain_cpp.Llm.RateLimiter.{Numbers, RateLimiter, acquire}
use langchain_cpp.Llm.RateLimiter.Bucket.{Laws, Took, first_token, acquire-Took}
use langchain_cpp.Rag.Embeddings.{Embeddings, VectorJson}
use langchain_cpp.Rag.Similarity.{Floats, nearest}
use langchain_cpp.Rag.InMemoryStore.Nearest.{IsStrictWeak, IsNearest, similarity, nearest-IsNearest}
use langchain_cpp.Tests.Sorting.{insertion_sort, insertion_sort-IsSort}
use langchain_cpp.Rag.Qdrant.{generate_uuid_v4}
use langchain_cpp.Rag.Qdrant.Uuid.{matches, generate_uuid_v4-matches}
use langchain_cpp.Rag.Qdrant.Store.{
  QdrantConfig, Outside, add_documents, similarity_search, search_points, on_rest,
}
use langchain_cpp.Rag.Qdrant.Store.Searches.{similarity_search_added}

abbrev floats : Floats
floats = record {
  Float = ℕ;
  Double = ℕ;
  widen = λ x. x;
  narrow = λ x. x;
  zero_double = 0;
  zero_float = 0;
  add = λ a b. a + b;
  multiply = λ a b. a * b;
  divide = λ a b. a;
  square_root = λ a. a;
  is_zero = λ a. a == 0;
  is_positive = λ a. ltb 0 a;
  one_float = 1;
  add_float = λ a b. a + b;
  multiply_float = λ a b. a * b;
  divide_float = λ a b. a;
  square_root_float = λ a. a;
  is_positive_float = λ a. ltb 0 a;
  above = λ a b. ltb b a;
  show = to_string;
}

abbrev two_vectors : List (List ℕ)
two_vectors = (1 ∷ []) ∷ (2 ∷ []) ∷ []

-- > on the similarities of two vectors.
numbers-IsStrictWeak : (f : ℕ → ℕ) → IsStrictWeak (λ a b. ltb (f b) (f a))
numbers-IsStrictWeak f = record {
  irreflexive = λ a. ground arith;
  transitive = λ a b c h k. ground (arith, h, k);
  cotransitive = λ a b c h k. ground (arith, h, k);
}

nearest-IsNearest_example :
    IsNearest floats
      (1 ∷ [])
      two_vectors
      1
      (codes "a" ∷ codes "b" ∷ [])
      (nearest floats insertion_sort (1 ∷ []) two_vectors 1 (codes "a" ∷ codes "b" ∷ []))
nearest-IsNearest_example =
    nearest-IsNearest floats insertion_sort (1 ∷ []) two_vectors 1 (codes "a" ∷ codes "b" ∷ [])
      insertion_sort-IsSort (numbers-IsStrictWeak (similarity floats (1 ∷ []) two_vectors))

abbrev sixteen : List ℕ
sixteen =
    0 ∷ 17 ∷ 34 ∷ 51 ∷ 68 ∷ 85 ∷ 255 ∷ 119 ∷ 255 ∷ 153 ∷ 170 ∷ 187 ∷ 204 ∷ 221 ∷ 238 ∷ 255 ∷ []

sixteen_bytes : All (λ b. b < 256) sixteen
sixteen_bytes = omega arith

generate_uuid_v4-matches_example :
    matches (codes "xxxxxxxx-xxxx-4xxx-yxxx-xxxxxxxxxxxx") (generate_uuid_v4 sixteen) ≡ true
generate_uuid_v4-matches_example = generate_uuid_v4-matches sixteen sixteen_bytes refl

abbrev vectors : VectorJson sample ℕ
vectors = record { vector = λ xs. sample.null; get_vector = λ v. ok [] }

abbrev refusal : Response
refusal = record { status_code = 401; body = codes "no"; header = λ name. none }

abbrev outside : Outside ℕ
outside = record {
  get = λ url headers w. (refusal, suc w);
  put = λ url headers body w. (refusal, suc w);
  post = λ url headers body w. (refusal, suc w);
  random_bytes = λ w. (sixteen, w);
}

abbrev embeddings : Embeddings ℕ ℕ
embeddings = record {
  embed_query = λ text w. (ok (1 ∷ []), suc w);
  embed_documents = λ texts w. (ok ((1 ∷ []) ∷ []), suc w);
}

abbrev config : QdrantConfig
config = record { url = codes "u"; collection_name = codes "c"; api_key = codes "wrong" }

-- A server that takes what is put, and finds nothing.
abbrev stored : Outside ℕ
stored = record outside {
  put = λ url headers body w. (record refusal { status_code = 200 }, suc w);
}

abbrev fox : Document Tree
fox = record { content = codes "fox"; metadata = [] }

similarity_search_added_example :
    similarity_search sample vectors
      (λ v. [])
      stored
      embeddings
      config
      (codes "q")
      4
      (record { collection_ready = true; rest = 4 })
    ≡ (on_rest (embeddings.embed_query (codes "q")) >>= λ v.
          search_points sample vectors (λ v. []) stored embeddings config v 4)
        (record { collection_ready = true; rest = 4 })
unfolding add_documents
similarity_search_added_example =
    similarity_search_added sample vectors (λ v. []) stored embeddings config fox [] (codes "q") 4
      (record { collection_ready = false; rest = 0 }) (record { collection_ready = true; rest = 4 })
      refl

abbrev numbers : Numbers
numbers = record {
  Number = ℕ;
  one = 1;
  add = λ a b. a + b;
  subtract = λ a b. a - b;
  multiply = λ a b. a * b;
  divide = λ a b. a;
  less = ltb;
  reaches = λ a b. leb b a;
}

numbers-Laws : Laws numbers
numbers-Laws = record {
  less-irreflexive = λ a. ground arith;
  less-asymmetric = λ a b h. ground (arith, h);
  less-subtract = λ a b h. ground (arith, h);
}

abbrev limiter : RateLimiter ℕ
limiter = record {
  requests_per_second = 1;
  max_bucket_size = 1;
  available_tokens = 0;
  last_refill = 0;
}

-- The first reading finds no token, the second one.
acquire-Took_example :
    Took numbers numbers-Laws limiter 2
      (first_token numbers numbers-Laws 1 1 (0 ∷ 1 ∷ []) 0 0)
      (acquire numbers (0 ∷ 1 ∷ []) limiter)
acquire-Took_example = acquire-Took numbers numbers-Laws (0 ∷ 1 ∷ []) limiter
