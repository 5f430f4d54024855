-- ===== src/Providers/OpenAi/Chat/Streamed.antt =====
-- What a streaming request gives to its callback.
use langchain_cpp.Base.{
  ◌≡◌, refl, ap, sym, ◌∙◌, Bool, true, false, List, [], ◌∷◌, ◌++◌, map, drop-length, append_assoc,
  append-nil,
}
use langchain_cpp.Base.Text.{Text, bytes, codes}
use langchain_cpp.Base.Http.{Send}
use langchain_cpp.Base.Json.{Json}
use langchain_cpp.Base.Outcome.{Outcome, ok, throws}
use langchain_cpp.Core.Message.{Message, ToolCall, assistant_tool_calls}
use langchain_cpp.Llm.ChatModel.{StreamChunk, StreamCallback, deliver, delta_chunk}
use langchain_cpp.Providers.OpenAi.Stream.{Parser, feed, new_parser}
use langchain_cpp.Providers.OpenAi.Stream.Assembly.{Assembled, finish_lem}
use langchain_cpp.Providers.OpenAi.Stream.Chunks.{feed_all, feed_all_lem, onward, view}
use langchain_cpp.Providers.OpenAi.Stream.Deltas.{feed-Grown}
use langchain_cpp.Providers.OpenAi.Chat.{
  OpenAiChat, Transfer, write_chunks, write_chunk, write_on, receive, request_body, headers, stream,
}

-- A network, and the chunks that a callback was given.
pub record Logged (V N : Type 0) : Type 0 where
  pub network : N
  pub log : List (StreamChunk V)

module _ {V N : Type 0} where
  abbrev pub keep : StreamCallback V (Logged V N)
  keep chunk s = (ok tt, record s { log = s.log ++ chunk ∷ [] })

  deliver-keep :
      (chunks : List (StreamChunk V)) (n : N) (log : List (StreamChunk V))
      → deliver chunks keep (record { network = n; log = log })
        ≡ (ok tt, record { network = n; log = log ++ chunks })
  unfolding deliver
  deliver-keep [] n log = rw append-nil
  deliver-keep (chunk ∷ chunks) n log =
      rw (deliver-keep chunks n (log ++ chunk ∷ []), append_assoc log (chunk ∷ []) chunks)

map-append : {A B : Type 0} (f : A → B) (xs ys : List A) → map f (xs ++ ys) ≡ map f xs ++ map f ys
map-append f [] ys = refl
map-append f (x ∷ xs) ys = ap (λ zs. f x ∷ zs) (map-append f xs ys)

abbrev parser_or : Outcome Bool → Parser → Outcome Parser
parser_or (ok more) p = ok p
parser_or (throws e) p = throws e

module _ (J : Json) {N : Type 0} where
  open J use {Value}

  abbrev world : N → List (StreamChunk Value) → Logged Value N
  world n log = record { network = n; log = log }

  one_chunk :
      (chunk : Text) (p : Parser) (more : List Text)
      (next : Parser → Logged Value N → Outcome Parser × Logged Value N) (n : N)
      (log : List (StreamChunk Value))
      → ((feed J chunk p).1).progress.deltas ≡ p.progress.deltas ++ more
      → write_chunk J keep (feed J chunk p) p next (world n log)
        ≡ write_on J keep
            (feed J chunk p).0
            (feed J chunk p).1
            next
            (world n (log ++ map delta_chunk more))
  one_chunk chunk p more next n log e =
      rw (e, drop-length p.progress.deltas more, deliver-keep (map delta_chunk more) n log) refl

  last_chunk :
      (r : Outcome Bool) (p : Parser) (w : Logged Value N)
      → write_on J keep r p (write_chunks J keep []) w ≡ (parser_or r p, w)
  unfolding write_chunks
  last_chunk (throws e) p w = refl
  last_chunk (ok true) p w = refl
  last_chunk (ok false) p w = refl

  -- What the loop over the chunks `written` has done, where `fed` is what feeding them gives.
  abbrev Sent :
      Outcome Bool × Parser
      → List Text
      → N
      → List (StreamChunk Value)
      → Outcome Parser × Logged Value N
      → Type 0
  Sent fed before n log done =
      (more : List Text) × (fed.1.progress.deltas ≡ before ++ more)
      × (done ≡ (parser_or fed.0 fed.1, world n (log ++ map delta_chunk more)))

  sent_on :
      (r : Outcome Bool) (p : Parser) (chunk : Text) (chunks : List Text) (before m : List Text)
      (n : N) (log : List (StreamChunk Value))
      → p.progress.deltas ≡ before ++ m
      → Sent
          (feed_all J chunk chunks p)
          p.progress.deltas
          n
          (log ++ map delta_chunk m)
          (write_chunks J keep (chunk ∷ chunks) p (world n (log ++ map delta_chunk m)))
      → Sent (onward J (r, p) (feed_all J chunk chunks)) before n log (
          write_on J keep r p
            (write_chunks J keep (chunk ∷ chunks))
            (world n (log ++ map delta_chunk m)))
  sent_on (throws what) p chunk chunks before m n log e h = (m, e, refl)
  sent_on (ok false) p chunk chunks before m n log e h = (m, e, refl)
  sent_on (ok true) p chunk chunks before m n log e (more, f, g) = (
    m ++ more,
    f ∙ ap (λ ds. ds ++ more) e ∙ append_assoc before m more,
    g
        ∙ ap
            (λ l.
              (parser_or (feed_all J chunk chunks p).0 (feed_all J chunk chunks p).1, world n l))
            (append_assoc log (map delta_chunk m) (map delta_chunk more)
              ∙ ap (λ l. log ++ l) (sym (map-append delta_chunk m more))),
  )

  sent :
      (chunk : Text) (chunks : List Text) (p : Parser) (n : N) (log : List (StreamChunk Value))
      → Sent
          (feed_all J chunk chunks p)
          p.progress.deltas
          n
          log
          (write_chunks J keep (chunk ∷ chunks) p (world n log))
  unfolding write_chunks
  sent chunk [] p n log =
      let (m, e) = feed-Grown J chunk p in
      let x = feed J chunk p in
      (
        m,
        e,
        one_chunk chunk p m (write_chunks J keep []) n log e
            ∙ last_chunk x.0 x.1 (world n (log ++ map delta_chunk m)),
      )
  sent chunk (next ∷ chunks) p n log =
      let (m, e) = feed-Grown J chunk p in
      let x = feed J chunk p in
      let (more, f, g) =
        sent_on x.0 x.1 next chunks p.progress.deltas m n log e
          (sent next chunks x.1 n (log ++ map delta_chunk m)) in
      (more, f, one_chunk chunk p m (write_chunks J keep (next ∷ chunks)) n log e ∙ g)

  -- Where a request is answered with status 200 and a body whose bytes the parser reads without an
  -- exception, and the arguments gathered for each tool call are empty, parsed, or refused by a
  -- parse_error, the callback gets the deltas of the whole body in order and then the final chunk, with
  -- the text and, in order, the calls with their ids, names and arguments, an empty object where these
  -- are empty or refused; however the body is cut into chunks.
  pub stream_answered :
      (post : Send (Logged Value N)) (transfer : Transfer (Logged Value N))
      (chat : OpenAiChat Value (Logged Value N)) (messages : List (Message Value))
      (s : Logged Value N) (n : N) (chunk : Text) (chunks : List Text) (more : Bool) (p : Parser)
      (calls : List (ToolCall Value))
      → transfer
          (chat.config.base_url ++ codes "/chat/completions")
          (headers J chat)
          (J.dump (request_body J true chat messages))
          s
        ≡ ((chunk ∷ chunks, 200), record { network = n; log = [] })
      → feed J (chunk ++ bytes chunks) new_parser ≡ (ok more, p)
      → Assembled J p.progress.tool_calls calls
      → stream J post transfer chat messages keep s ≡ (
        ok tt,
        record {
          network = n;
          log =
              map delta_chunk p.progress.deltas
              ++ record {
                delta = [];
                is_final = true;
                message = assistant_tool_calls calls p.progress.text;
              }
                ∷ [];
        },
      )
  unfolding stream receive
  stream_answered post transfer chat messages s n chunk chunks more p calls e f a =
      let (ds, g, h) = sent chunk chunks new_parser n [] in
      let v = feed_all_lem J chunk chunks new_parser ∙ ap (view J) f in
      let outcome : (feed_all J chunk chunks new_parser).0 ≡ ok more = ap (λ x. x.0) v in
      let gathered : (feed_all J chunk chunks new_parser).1.progress ≡ p.progress =
        ap (λ x. x.1) v in
      let deltas : ds ≡ p.progress.deltas = sym g ∙ ap (λ x. x.deltas) gathered in
      rw (e, h, outcome, gathered, deltas, finish_lem J p.progress calls a) refl
