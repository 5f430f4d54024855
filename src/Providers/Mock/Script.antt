-- ===== src/Providers/Mock/Script.antt =====
-- Replaying a script, and streaming a text by its words.
use langchain_cpp.Base.{
  ℕ, suc, true, false, not, ◌-◌, ◌+◌, ◌≤◌, ◌≡◌, refl, ap, List, [], ◌∷◌, ◌++◌, map, min,
  if◌then◌else◌, length, length-append, get_elem?-append, is_empty, arith, append_assoc, append-nil,
  sym, ◌∙◌, All,
}
use langchain_cpp.Base.Text.{Text, bytes}
use langchain_cpp.Base.Join.{join, joined_behind}
use langchain_cpp.Base.Outcome.{ok}
use langchain_cpp.Base.Exec.{Exec, pure, ◌>>=◌}
use langchain_cpp.Core.Message.{Message}
use langchain_cpp.Llm.ChatModel.{StreamChunk, StreamCallback, deliver}
use langchain_cpp.Providers.Mock.{
  MockChat, MockState, invoke, stream, words_of, word_onto, is_space, starts_word, word_chunks,
  more_chunks,
}

module _ {V W : Type 0} where
  -- The replies to a run of calls.
  unfoldable pub invoke_each :
      MockChat V W → List (List (Message V)) → Exec (MockState W) (List (Message V))
  invoke_each mock [] = pure []
  invoke_each mock (input ∷ inputs) = do
    reply ← invoke mock input
    replies ← invoke_each mock inputs
    pure (reply ∷ replies)

module _ {V : Type 0} where
  -- The script's messages in order, and the last one from then on.
  abbrev pub replies_of : List (Message V) → Message V → List (List (Message V)) → List (Message V)
  replies_of script last [] = []
  replies_of [] last (input ∷ inputs) = last ∷ replies_of [] last inputs
  replies_of (m ∷ script) last (input ∷ inputs) = m ∷ replies_of script last inputs

  is_empty-append :
      (before : List (Message V)) (m : Message V) (after : List (Message V))
      → is_empty (before ++ m ∷ after) ≡ false
  is_empty-append [] m after = refl
  is_empty-append (x ∷ before) m after = refl

  -- Where next_scripted stands when the messages `before` are passed and `script` is left.
  abbrev Passed : List (Message V) → List (Message V) → ℕ → Type 0
  Passed before [] i = length before ≤ i
  Passed before (m ∷ script) i = i ≡ length before

  passed : (before script : List (Message V)) (i : ℕ) → i ≡ length before → Passed before script i
  passed before [] i h = omega (arith, h)
  passed before (m ∷ script) i h = h

module _ {V W : Type 0} (mock : MockChat V W) where
  abbrev at : ℕ → W → MockState W
  at i w = record { next_scripted = i; rest = w }

  invoke_at :
      (before : List (Message V)) (m : Message V) (after : List (Message V))
      (input : List (Message V)) (i : ℕ) (w : W)
      → mock.scripted_responses ≡ before ++ m ∷ after
      → min i (length (before ++ m ∷ after) - 1) ≡ length before
      → invoke mock input (at i w) ≡ (ok m, at (suc i) w)
  unfolding invoke
  invoke_at before m after input i w e h =
      rw (e, is_empty-append before m after, h, get_elem?-append before m after) refl

  replay_from :
      (before script : List (Message V)) (last : Message V) (inputs : List (List (Message V)))
      (i : ℕ) (w : W)
      → mock.scripted_responses ≡ before ++ (script ++ last ∷ [])
      → Passed before script i
      → invoke_each mock inputs (at i w)
        ≡ (ok (replies_of script last inputs), at (length inputs + i) w)
  unfolding invoke_each
  replay_from before script last [] i w e h = ground arith
  replay_from before [] last (input ∷ inputs) i w e h =
      rw
        (
          invoke_at before last [] input i w e (omega (arith, h, length-append before (last ∷ []))),
          replay_from before [] last inputs (suc i) w e (omega (arith, h)),
        )
        (ground arith)
  replay_from before (m ∷ script) last (input ∷ inputs) i w e h =
      rw
        (
          invoke_at before m (script ++ last ∷ []) input i w e
              (omega (arith, h, length-append before (m ∷ (script ++ last ∷ [])))),
          replay_from (before ++ m ∷ []) script last inputs (suc i) w
              (e ∙ sym (append_assoc before (m ∷ []) (script ++ last ∷ [])))
              (passed (before ++ m ∷ []) script (suc i)
                (omega (arith, h, length-append before (m ∷ [])))),
        )
        (ground arith)

  -- However often the model is asked, and whatever, the script's messages are the replies, in order,
  -- and the last one from then on; nothing else of the world changes.
  pub replay :
      (script : List (Message V)) (last : Message V) (inputs : List (List (Message V))) (w : W)
      → mock.scripted_responses ≡ script ++ last ∷ []
      → invoke_each mock inputs (at 0 w)
        ≡ (ok (replies_of script last inputs), at (length inputs) w)
  replay script last inputs w e =
      rw (replay_from [] script last inputs 0 w e (passed [] script 0 refl)) (ground arith)

-- A text of words with one blank between them.
abbrev pub IsWord : Text → Type 0
IsWord word = (is_empty word ≡ false) × All (λ c. is_space c ≡ false) word

word_onto_outside : (c : ℕ) (words : List Text) → word_onto c words false ≡ (c ∷ []) ∷ words
unfolding word_onto
word_onto_outside c [] = refl
word_onto_outside c (word ∷ words) = refl

word_in :
    (word rest : Text) (words : List Text)
    → IsWord word
    → starts_word rest ≡ false
    → words_of rest ≡ words
    → words_of (word ++ rest) ≡ word ∷ words
unfolding words_of word_onto
word_in [] rest words h e r = ground arith
word_in (c ∷ []) rest words h e r = rw (h.1.0, r, e) (word_onto_outside c words)
word_in (c ∷ d ∷ word) rest words h e r =
    rw (h.1.0, word_in (d ∷ word) rest words (refl, h.1.1) e r, h.1.1.0) refl

words_of-behind :
    (words : List Text)
    → All IsWord words
    → (words_of (joined_behind (32 ∷ []) words) ≡ words)
      × (starts_word (joined_behind (32 ∷ []) words) ≡ false)
unfolding joined_behind words_of
words_of-behind [] h = (refl, refl)
words_of-behind (word ∷ words) h =
    let rest = words_of-behind words h.1 in
    (word_in word (joined_behind (32 ∷ []) words) words h.0 rest.1 rest.0, refl)

words_of-join : (words : List Text) → All IsWord words → words_of (join (32 ∷ []) words) ≡ words
unfolding join words_of
words_of-join [] h = refl
words_of-join (word ∷ words) h =
    let rest = words_of-behind words h.1 in
    word_in word (joined_behind (32 ∷ []) words) words h.0 rest.1 rest.0

abbrev pub deltas_of : {V : Type 0} → List (StreamChunk V) → List Text
deltas_of = map (λ chunk. chunk.delta)

bytes-more_chunks :
    (V : Type 0) (words : List Text)
    → bytes (deltas_of (more_chunks {V = V} words)) ≡ joined_behind (32 ∷ []) words
unfolding more_chunks joined_behind
bytes-more_chunks V [] = refl
bytes-more_chunks V (word ∷ words) = ap (λ t. (32 ∷ word) ++ t) (bytes-more_chunks V words)

bytes-word_chunks :
    (V : Type 0) (words : List Text)
    → bytes (deltas_of (word_chunks {V = V} words)) ≡ join (32 ∷ []) words
unfolding word_chunks join
bytes-word_chunks V [] = refl
bytes-word_chunks V (word ∷ words) = ap (λ t. word ++ t) (bytes-more_chunks V words)

abbrev pub IsPiece : {V : Type 0} → StreamChunk V → Type 0
IsPiece chunk = chunk.is_final ≡ false

more_chunks-IsPiece : (V : Type 0) (words : List Text) → All IsPiece (more_chunks {V = V} words)
unfolding more_chunks
more_chunks-IsPiece V [] = tt
more_chunks-IsPiece V (word ∷ words) = (refl, more_chunks-IsPiece V words)

word_chunks-IsPiece : (V : Type 0) (words : List Text) → All IsPiece (word_chunks {V = V} words)
unfolding word_chunks
word_chunks-IsPiece V [] = tt
word_chunks-IsPiece V (word ∷ words) = (refl, more_chunks-IsPiece V words)

-- The test for an empty text changes nothing.
chunks_of_text :
    (V : Type 0) (content : Text)
    → (if not (is_empty content) then word_chunks {V = V} (words_of content) else [])
      ≡ word_chunks (words_of content)
unfolding words_of word_chunks
chunks_of_text V [] = refl
chunks_of_text V (c ∷ content) = refl

module _ {V : Type 0} where
  -- A callback that keeps what it gets.
  abbrev pub keep_chunk : StreamCallback V (MockState (List (StreamChunk V)))
  keep_chunk chunk s = (ok tt, record s { rest = s.rest ++ chunk ∷ [] })

  deliver-keep_chunk :
      (chunks : List (StreamChunk V)) (i : ℕ) (log : List (StreamChunk V))
      → deliver chunks keep_chunk (record { next_scripted = i; rest = log })
        ≡ (ok tt, record { next_scripted = i; rest = log ++ chunks })
  unfolding deliver
  deliver-keep_chunk [] i log = rw append-nil
  deliver-keep_chunk (chunk ∷ chunks) i log =
      rw (deliver-keep_chunk chunks i (log ++ chunk ∷ []), append_assoc log (chunk ∷ []) chunks)

  -- Where the reply is words with one blank between them, the callback gets pieces that make up the
  -- reply's text, and then one empty final chunk with the reply.
  pub stream_words :
      (mock : MockChat V (List (StreamChunk V))) (messages : List (Message V))
      (s : MockState (List (StreamChunk V))) (m : Message V) (i : ℕ) (words : List Text)
      → invoke mock messages s ≡ (ok m, record { next_scripted = i; rest = [] })
      → m.content ≡ join (32 ∷ []) words
      → All IsWord words
      → (chunks : List (StreamChunk V)) × (stream mock messages keep_chunk s ≡ (
        ok tt,
        record {
          next_scripted = i;
          rest = chunks ++ (record { delta = []; is_final = true; message = m }) ∷ [];
        },
      ))
        × (bytes (deltas_of chunks) ≡ m.content)
        × All IsPiece chunks
  unfolding stream
  stream_words mock messages s m i words e c h =
      let chunks = word_chunks {V = V} words in
      (
        chunks,
        rw (e, chunks_of_text V m.content, c, words_of-join words h, deliver-keep_chunk chunks i [])
            refl,
        bytes-word_chunks V words ∙ sym c,
        word_chunks-IsPiece V words,
      )
