-- ===== src/Rag/Splitter/Bounds.antt =====
-- src/rag/splitters/recursive_character_text_splitter.cpp, merge_splits: how long a chunk gets.
use langchain_cpp.Base.{
  ℕ, ◌+◌, ◌≤◌, ◌≡◌, refl, true, false, List, [], ◌∷◌, ◌++◌, arith, length, is_empty, if◌then◌else◌,
  All, All-append, length-append,
}
use mathlib.Core.List.{reverse}
use langchain_cpp.Base.Join.{join, joined_behind, join-concat}
use langchain_cpp.Base.Text.{Text}
use langchain_cpp.Rag.Splitter.{
  Config, Merge, overlap_from, added_len, flush, push, merge_step, merge_from, finish, no_merge,
  merge_splits,
}

module _ (c : Config) (sep : Text) where
  length-join-cons :
      (p : Text) (ps : List Text)
      → length (join sep (p ∷ ps))
        ≡ length p + (added_len (length sep) ps [] + length (join sep ps))
  unfolding join joined_behind added_len
  length-join-cons p [] = ground (arith, length-append p [])
  length-join-cons p (q ∷ ps) = ground (
    arith,
    length-append p (sep ++ (q ++ joined_behind sep ps)),
    length-append sep (q ++ joined_behind sep ps),
  )

  overlap_from_bound :
      (before overlap : List Text) (n : ℕ)
      → n ≡ length (join sep overlap)
      → n ≤ c.chunk_overlap
      → ((overlap_from c (length sep) before overlap n).1
          ≡ length (join sep (overlap_from c (length sep) before overlap n).0))
        × ((overlap_from c (length sep) before overlap n).1 ≤ c.chunk_overlap)
  unfolding overlap_from added_len
  overlap_from_bound [] overlap n e h = (e, h)
  overlap_from_bound (p ∷ before) [] n e h =
      ground (arith, overlap_from_bound before (p ∷ []) (n + length p), length-join-cons p [])
  overlap_from_bound (p ∷ before) (q ∷ overlap) n e h = ground (
    arith,
    overlap_from_bound before (p ∷ q ∷ overlap) (n + (length p + length sep)),
    length-join-cons p (q ∷ overlap),
  )

  -- The length that the loop keeps is that of the current chunk, and every chunk is within `limit`.
  IsWithin : ℕ → Merge → Type 0
  IsWithin limit m =
      (m.current_len ≡ length (join sep m.current))
      × ((m.current_len ≤ limit) × All (λ chunk. length chunk ≤ limit) m.chunks)

  length-join-concat :
      (ps : List Text) (p : Text)
      → length (join sep (ps ++ p ∷ [])) ≡ length (join sep ps) + added_len (length sep) ps p
  unfolding join joined_behind added_len
  length-join-concat [] p = ground (arith, length-append p [])
  length-join-concat (q ∷ ps) p = ground (
    arith,
    join-concat sep q ps p,
    length-append (join sep (q ∷ ps)) (sep ++ p),
    length-append sep p,
  )

  limit : ℕ
  limit = c.chunk_size + c.chunk_overlap + length sep

  push_bound :
      (m : Merge) (p : Text)
      → IsWithin limit m
      → m.current_len + added_len (length sep) m.current p ≤ limit
      → IsWithin limit (push sep p m)
  unfolding push IsWithin
  push_bound m p (e, (h, hs)) k = (ground (arith, length-join-concat m.current p), (k, hs))

  flush_bound :
      (m : Merge)
      → IsWithin limit m
      → IsWithin limit (flush c sep m) × ((flush c sep m).current_len ≤ c.chunk_overlap)
  unfolding flush IsWithin limit join
  flush_bound m (e, (h, hs)) =
      let o = overlap_from_bound (reverse m.current) [] 0 refl (omega arith) in
      (
        (
          o.0,
          (
            omega (arith, o.1),
            All-append (λ chunk. length chunk ≤ limit) m.chunks _ hs (omega (arith, e, h), tt),
          ),
        ),
        o.1,
      )

  merge_step_bound :
      (m : Merge) (p : Text)
      → length p ≤ c.chunk_size
      → IsWithin limit m
      → IsWithin limit (merge_step c sep p m)
  unfolding merge_step IsWithin limit added_len
  merge_step_bound m p hp hm = ground (
    arith,
    push_bound m p hm,
    flush_bound m hm,
    push_bound (flush c sep m) p (flush_bound m hm).0,
  )

  merge_from_bound :
      (ps : List Text) (m : Merge)
      → All (λ p. length p ≤ c.chunk_size) ps
      → IsWithin limit m
      → IsWithin limit (merge_from c sep ps m)
  unfolding merge_from
  merge_from_bound [] m h hm = hm
  merge_from_bound (p ∷ ps) m h hm =
      merge_from_bound ps (merge_step c sep p m) h.1 (merge_step_bound m p h.0 hm)

  finish_bound : (m : Merge) → IsWithin limit m → All (λ chunk. length chunk ≤ limit) (finish sep m)
  unfolding finish IsWithin
  finish_bound m (e, (h, hs)) =
      elim (is_empty m.current)
        as (λ b.
          All (λ chunk. length chunk ≤ limit)
            (if b then m.chunks else m.chunks ++ join sep m.current ∷ [])) [
              | true ↦ hs
              | false ↦
                  All-append (λ chunk. length chunk ≤ limit) m.chunks (join sep m.current ∷ []) hs
                    (omega (arith, e, h), tt)
            ]

  -- Where every piece has at most chunk_size bytes, no chunk has more than chunk_size, chunk_overlap
  -- and the separator's length together.
  pub merge_splits_bound :
      (pieces : List Text)
      → All (λ p. length p ≤ c.chunk_size) pieces
      → All
          (λ chunk. length chunk ≤ c.chunk_size + c.chunk_overlap + length sep)
          (merge_splits c pieces sep)
  unfolding merge_splits limit IsWithin join
  merge_splits_bound pieces h =
      finish_bound (merge_from c sep pieces no_merge)
        (merge_from_bound pieces no_merge h (refl, (omega arith, tt)))
