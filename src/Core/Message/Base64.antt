-- ===== src/Core/Message/Base64.antt =====
-- `base64_encode` of src/core/message.cpp. The loop over groups of three bytes and the one or two
-- bytes left over are the clauses. The fields that `|` joins do not overlap, so it is a sum here.
use langchain_cpp.Base.{ℕ, ◌+◌, ◌*◌, ◌/◌, ◌%◌, List, [], ◌∷◌, Option, none, some, get_elem?}
use langchain_cpp.Base.Text.{Text, codes}

abbrev pub table : Text
table = codes "ABCDEFGHIJKLMNOPQRSTUVWXYZabcdefghijklmnopqrstuvwxyz0123456789+/"

abbrev get_or : Option ℕ → ℕ → ℕ
get_or none d = d
get_or (some x) d = x

-- table[n & 0x3F]
unfoldable pub table_at : ℕ → ℕ
table_at n = get_or (get_elem? table (n % 64)) 0

unfoldable pub base64_encode : List ℕ → Text
base64_encode [] = []
base64_encode (a ∷ []) =
    let chunk = a * 65536 in table_at (chunk / 262144) ∷ table_at (chunk / 4096) ∷ b'=' ∷ b'=' ∷ []
base64_encode (a ∷ b ∷ []) =
    let chunk = a * 65536 + b * 256 in
    table_at (chunk / 262144) ∷ table_at (chunk / 4096) ∷ table_at (chunk / 64) ∷ b'=' ∷ []
base64_encode (a ∷ b ∷ c ∷ rest) =
    let chunk = a * 65536 + b * 256 + c in
    table_at (chunk / 262144)
    ∷ table_at (chunk / 4096)
    ∷ table_at (chunk / 64)
    ∷ table_at chunk
    ∷ base64_encode rest
