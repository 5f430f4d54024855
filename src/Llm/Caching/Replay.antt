-- ===== src/Llm/Caching/Replay.antt =====
-- What a second request finds, over an in-memory cache that only the caching model writes.
use langchain_cpp.Base.{
  ◌≡◌, true, false, List, [], ◌∷◌, ◌++◌, none, some, arith, inl, inr, Option-cases, All,
}
use langchain_cpp.Base.Text.{Text, text_eq_refl}
use langchain_cpp.Base.Dict.{Dict, lookup, insert, lookup-insert}
use langchain_cpp.Base.Json.{Json}
use langchain_cpp.Base.Outcome.{Outcome, ok, throws, Outcome-cases}
use langchain_cpp.Base.Exec.{Exec}
use langchain_cpp.Core.Message.{Message}
use langchain_cpp.Llm.ChatModel.{
  ChatModel, StreamChunk, StreamCallback, final_chunk, default_stream, deliver,
}
use langchain_cpp.Llm.Caching.{
  CachingChatModel, InMemory, in_memory_cache, key_of, invoke, stream_callback, stream,
}

abbrev pub in_rest : {V M A : Type 0} → (M → Outcome A × M) → Exec (InMemory V M) A
in_rest m w = let (r, rest') = m w.rest in (r, record w { rest = rest' })

-- A caching model around a model that does not touch the cache and streams its reply as one chunk.
abbrev pub cached : {V M : Type 0} → ChatModel V M → Text → CachingChatModel V (InMemory V M)
cached model signature = record {
  inner = record {
    model_name = model.model_name;
    invoke = λ messages. in_rest (model.invoke messages);
    stream = default_stream (λ messages. in_rest (model.invoke messages));
  };
  cache = in_memory_cache;
  tools_signature = signature;
}

module _ (J : Json) {M : Type 0} (model : ChatModel J.Value M) (signature : Text) where
  -- A request whose key is not in the cache goes to the model. A reply is stored under the key and
  -- returned; an exception is passed on and stores nothing.
  pub invoke_miss :
      (messages : List (Message J.Value)) (entries : Dict (Message J.Value)) (m m' : M)
      (r : Outcome (Message J.Value))
      → lookup (key_of J (cached model signature) messages) entries ≡ none
      → model.invoke messages m ≡ (r, m')
      → invoke J (cached model signature) messages (record { entries = entries; rest = m }) ≡ (
        r,
        record {
          entries = elim r [
            | throws e ↦ entries
            | ok reply ↦ insert (key_of J (cached model signature) messages) reply entries
          ];
          rest = m';
        },
      )
  unfolding invoke
  invoke_miss messages entries m m' (ok reply) free h = rw (free, h)
  invoke_miss messages entries m m' (throws e) free h = rw (free, h)

  -- After a request that was answered, the same request has the same answer, and neither the model
  -- nor the cache changes.
  pub invoke_again :
      (messages : List (Message J.Value)) (w w' : InMemory J.Value M) (reply : Message J.Value)
      → invoke J (cached model signature) messages w ≡ (ok reply, w')
      → invoke J (cached model signature) messages w' ≡ (ok reply, w')
  unfolding invoke
  invoke_again messages w w' reply h =
      let key = key_of J (cached model signature) messages in
      elim (Option-cases (lookup key w.entries)) [
        | inr (old, found) ↦ ground arith
        | inl free ↦ elim (Outcome-cases (model.invoke messages w.rest).0) [
          | inr (what, e) ↦ ground arith
          | inl (r, e) ↦ ground (arith, lookup-insert key key r w.entries, text_eq_refl key)
        ]
      ]

module _ {V W : Type 0} where
  deliver_kept :
      (tokens : List (StreamChunk V)) (final : StreamChunk V) (on_chunk : StreamCallback V W)
      (unset : Message V) (w w' : W)
      → All (λ c. c.is_final ≡ false) tokens
      → final.is_final ≡ true
      → deliver (tokens ++ final ∷ []) on_chunk w ≡ (ok tt, w')
      → deliver (tokens ++ final ∷ []) (stream_callback on_chunk) (unset, w)
        ≡ (ok tt, (final.message, w'))
  unfolding stream_callback deliver
  deliver_kept [] final on_chunk unset w w' h f e = elim (Outcome-cases (on_chunk final w).0) [
    | inl (x, k) ↦ ground arith
    | inr (x, k) ↦ ground arith
  ]
  deliver_kept (t ∷ tokens) final on_chunk unset w w' h f e =
      elim (Outcome-cases (on_chunk t w).0) [
        | inl (x, k) ↦ ground (
          arith,
          deliver_kept tokens final on_chunk unset (on_chunk t w).1 w' h.1 f (ground arith),
        )
        | inr (x, k) ↦ ground arith
      ]

module _ (J : Json) {M : Type 0} (model : ChatModel J.Value M) (signature : Text) where
  -- On a miss the callback gets the chunks of the inner model's stream, and where it takes them
  -- all, the message of the final chunk is stored under the key.
  pub stream_miss :
      (tokens : List (StreamChunk J.Value)) (final : StreamChunk J.Value)
      (on_chunk : StreamCallback J.Value (InMemory J.Value M)) (messages : List (Message J.Value))
      (unset : Message J.Value) (w w' : InMemory J.Value M)
      → All (λ c. c.is_final ≡ false) tokens
      → final.is_final ≡ true
      → lookup (key_of J (cached model signature) messages) w.entries ≡ none
      → deliver (tokens ++ final ∷ []) on_chunk w ≡ (ok tt, w')
      → stream J unset
          (cached model signature)
          (λ _. deliver (tokens ++ final ∷ []))
          messages
          on_chunk
          w
        ≡ (
          ok tt,
          record w' {
            entries = insert (key_of J (cached model signature) messages) final.message w'.entries;
          },
        )
  unfolding stream
  stream_miss tokens final on_chunk messages unset w w' h f free e =
      rw (free, deliver_kept tokens final on_chunk unset w w' h f e)

  -- On a hit the callback gets the stored message as one final chunk, and the inner model is not
  -- asked.
  pub stream_hit :
      (inner_stream : List (Message J.Value)
        → StreamCallback J.Value (Message J.Value × InMemory J.Value M)
        → Exec (Message J.Value × InMemory J.Value M) (Unit {0}))
      (on_chunk : StreamCallback J.Value (InMemory J.Value M)) (messages : List (Message J.Value))
      (unset reply : Message J.Value) (w : InMemory J.Value M)
      → lookup (key_of J (cached model signature) messages) w.entries ≡ some reply
      → stream J unset (cached model signature) inner_stream messages on_chunk w
        ≡ on_chunk (final_chunk reply) w
  unfolding stream
  stream_hit inner_stream on_chunk messages unset reply w h = rw h
