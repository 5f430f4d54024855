-- ===== src/Rag/Splitter.antt =====
-- include/langchain/rag/splitters and src/rag/splitters: the recursive text splitter. The separator
-- index is the list of the separators from there on, which is not empty. The loop over find in
-- split_string runs on fuel; each round passes the separator, so the text's length is enough.
pub mod Pieces
pub mod Bounds
use langchain_cpp.Base.{
  ℕ, zero, suc, ◌+◌, not, ◌&&◌, List, [], ◌∷◌, ◌++◌, none, some, length, is_empty, ltb, leb,
  if◌then◌else◌,
}
use mathlib.Core.List.{reverse}
use langchain_cpp.Base.Join.{join}
use langchain_cpp.Base.Dict.{Dict}
use langchain_cpp.Rag.Document.{Document}
use langchain_cpp.Base.Text.{Text, break_on}

pub record Config : Type 0 where
  pub chunk_size : ℕ
  pub chunk_overlap : ℕ

-- split_string on the empty separator
unfoldable characters : Text → List Text
characters [] = []
characters (c ∷ s) = (c ∷ []) ∷ characters s

unfoldable split_from : ℕ → Text → Text → List Text
split_from zero separator text = text ∷ []
split_from (suc fuel) separator text = elim (break_on separator text) [
  | none ↦ text ∷ []
  | some (piece, rest) ↦ piece ∷ split_from fuel separator rest
]

unfoldable pub split_string : Text → Text → List Text
unfolding characters split_from
split_string text separator =
    if is_empty separator then characters text else split_from (length text) separator text

-- The pieces at the end of `current`, backwards, that go over into the next chunk, with their
-- length.
unfoldable overlap_from : Config → ℕ → List Text → List Text → ℕ → List Text × ℕ
overlap_from c sep_len [] overlap overlap_len = (overlap, overlap_len)
overlap_from c sep_len (piece ∷ before) overlap overlap_len =
    let len = length piece + (if is_empty overlap then 0 else sep_len) in
    let more = overlap_from c sep_len before (piece ∷ overlap) (overlap_len + len) in
    if ltb c.chunk_overlap (overlap_len + len) then (overlap, overlap_len) else more

-- The locals of the loop of merge_splits.
pub record Merge : Type 0 where
  pub chunks : List Text
  pub current : List Text
  pub current_len : ℕ

unfoldable added_len : ℕ → List Text → Text → ℕ
added_len sep_len current piece = if is_empty current then length piece else length piece + sep_len

-- What is done before the piece is pushed, where it would not fit.
unfoldable flush : Config → Text → Merge → Merge
unfolding overlap_from
flush c separator m =
    let (overlap, overlap_len) = overlap_from c (length separator) (reverse m.current) [] 0 in
    record {
      chunks = m.chunks ++ join separator m.current ∷ [];
      current = overlap;
      current_len = overlap_len;
    }

unfoldable push : Text → Text → Merge → Merge
unfolding added_len
push separator piece m = record m {
  current = m.current ++ piece ∷ [];
  current_len = m.current_len + added_len (length separator) m.current piece;
}

unfoldable merge_step : Config → Text → Text → Merge → Merge
unfolding added_len flush push
merge_step c separator piece m =
    if not (is_empty m.current)
      && ltb c.chunk_size (m.current_len + added_len (length separator) m.current piece)
    then push separator piece (flush c separator m)
    else push separator piece m

unfoldable merge_from : Config → Text → List Text → Merge → Merge
merge_from c separator [] m = m
merge_from c separator (piece ∷ pieces) m =
    merge_from c separator pieces (merge_step c separator piece m)

unfoldable finish : Text → Merge → List Text
finish separator m =
    if is_empty m.current then m.chunks else m.chunks ++ join separator m.current ∷ []

abbrev pub no_merge : Merge
no_merge = record { chunks = []; current = []; current_len = 0 }

unfoldable pub merge_splits : Config → List Text → Text → List Text
unfolding merge_step merge_from finish
merge_splits c pieces separator = finish separator (merge_from c separator pieces no_merge)

-- The loop over the pieces: a piece that is too long goes through `deeper`.
unfoldable refined : Config → (Text → List Text) → List Text → List Text
refined c deeper [] = []
refined c deeper (piece ∷ pieces) =
    (if leb (length piece) c.chunk_size then piece ∷ [] else deeper piece)
    ++ refined c deeper pieces

-- RecursiveCharacterTextSplitter::split
unfoldable pub split : Config → Text → List Text → Text → List Text
unfolding merge_splits refined
split c separator [] text = merge_splits c (split_string text separator) separator
split c separator (next ∷ separators) text =
    merge_splits c (refined c (split c next separators) (split_string text separator)) separator

-- RecursiveCharacterTextSplitter::split_text
unfoldable pub split_text : Config → Text → List Text → Text → List Text
split_text c separator separators text =
    if is_empty text then [] else split c separator separators text

-- The chunks of one document, each with the document's metadata.
unfoldable pub as_documents : {V : Type 0} → Dict V → List Text → List (Document V)
as_documents metadata [] = []
as_documents metadata (chunk ∷ chunks) =
    record { content = chunk; metadata = metadata } ∷ as_documents metadata chunks

-- RecursiveCharacterTextSplitter::split_documents
unfoldable pub split_documents :
    {V : Type 0} → Config → Text → List Text → List (Document V) → List (Document V)
unfolding split_text as_documents
split_documents c separator separators [] = []
split_documents c separator separators (document ∷ documents) =
    as_documents document.metadata (split_text c separator separators document.content)
    ++ split_documents c separator separators documents
