-- ===== src/Providers/OpenAi/Stream/Chunks.antt =====
-- How a streamed answer is cut into chunks does not matter.
use langchain_cpp.Base.{
  ℕ, zero, suc, ◌≤◌, ◌≡◌, refl, sym, ap, ◌∙◌, Bool, true, false, List, [], ◌∷◌, ◌++◌, inl, inr,
  arith, length, length-append, append_assoc, append-nil, Option-cases, Bool-cases,
}
use langchain_cpp.Base.Text.{bytes, Text, break_at, length-break_at, break_at_before}
use langchain_cpp.Base.Json.{Json}
use langchain_cpp.Base.Outcome.{Outcome, ok, throws, Outcome-cases}
use langchain_cpp.Providers.OpenAi.Stream.{Progress, Parser, process_line, drain, kept, feed}
use langchain_cpp.Mcp.Sse.{drop_return}

module _ (J : Json) where
  -- More fuel than the buffer is long changes nothing.
  drain_fuel :
      (n m : ℕ) (b : Text) (p : Progress)
      → length b ≤ n
      → length b ≤ m
      → drain J n b p ≡ drain J m b p
  unfolding drain break_at
  drain_fuel zero zero b p hn hm = refl
  drain_fuel zero (suc m) [] p hn hm = refl
  drain_fuel zero (suc m) (c ∷ b) p hn hm = ground arith
  drain_fuel (suc n) zero [] p hn hm = refl
  drain_fuel (suc n) zero (c ∷ b) p hn hm = ground arith
  drain_fuel (suc n) (suc m) b p hn hm = elim (Option-cases (break_at 10 b)) [
    | inl e ↦ rw e
    | inr ((l, r), e) ↦
        let q = process_line J (drop_return l) p in
        let shorter = length-break_at 10 b {a = l} {b = r} e in
        rw e (elim (Outcome-cases q.0) [
          | inr (what, o) ↦ rw o
          | inl (u, o) ↦ elim (Bool-cases q.1.done) [
            | inl d ↦ rw (o, d)
            | inr d ↦
                rw (o, d)
                  (drain_fuel n m r q.1 (omega (arith, shorter, hn)) (omega (arith, shorter, hm)))
          ]
        ])
  ]

  -- What more bytes make of the outcome of a loop.
  abbrev extend : Outcome Bool × (Text × Progress) → Text → Outcome Bool × (Text × Progress)
  extend (throws e, (b, p)) t = (throws e, (b ++ t, p))
  extend (ok false, (b, p)) t = (ok false, (b ++ t, p))
  extend (ok true, (b, p)) t = drain J (length (b ++ t)) (b ++ t) p

  drain-extend :
      (n m : ℕ) (a t : Text) (p : Progress)
      → length a ≤ n
      → length (a ++ t) ≤ m
      → drain J m (a ++ t) p ≡ extend (drain J n a p) t
  unfolding drain break_at
  drain-extend zero m [] t p hn hm = drain_fuel m (length t) t p hm (omega arith)
  drain-extend zero m (c ∷ a) t p hn hm = ground arith
  drain-extend (suc n) zero [] t p hn hm = drain_fuel zero (length t) t p hm (omega arith)
  drain-extend (suc n) zero (c ∷ a) t p hn hm = ground arith
  drain-extend (suc n) (suc m) a t p hn hm = elim (Option-cases (break_at 10 a)) [
    | inl e ↦ rw e (drain_fuel (suc m) (length (a ++ t)) (a ++ t) p hm (omega arith))
    | inr ((l, r), e) ↦
        let q = process_line J (drop_return l) p in
        let shorter = length-break_at 10 a {a = l} {b = r} e in
        let sizes = length-append a t in
        let sizes' = length-append r t in
        rw (e, break_at_before 10 a t {a = l} {b = r} e)
          (elim (Outcome-cases q.0) [
            | inr (what, o) ↦ rw o
            | inl (u, o) ↦ elim (Bool-cases q.1.done) [
              | inl d ↦ rw (o, d)
              | inr d ↦
                  rw (o, d)
                    (drain-extend n m r t q.1 (omega (arith, shorter, hn))
                      (omega (arith, shorter, hm, sizes, sizes')))
            ]
          ])
  ]

  -- What a client sees: the outcome, and all that was gathered; not the bytes left in the buffer.
  abbrev pub view : Outcome Bool × Parser → Outcome Bool × Progress
  view (r, p) = (r, p.progress)

  abbrev pub onward :
      Outcome Bool × Parser → (Parser → Outcome Bool × Parser) → Outcome Bool × Parser
  onward (ok true, p) next = next p
  onward (ok false, p) next = (ok false, p)
  onward (throws e, p) next = (throws e, p)

  -- The chunks fed in order, until one ends the stream or throws.
  abbrev pub feed_all : Text → List Text → Parser → Outcome Bool × Parser
  feed_all chunk [] p = feed J chunk p
  feed_all chunk (next ∷ chunks) p = onward (feed J chunk p) (feed_all next chunks)

  onward-extend :
      (x : Outcome Bool × (Text × Progress)) (next : Parser → Outcome Bool × Parser) (t : Text)
      → ((p : Parser) → view (next p) ≡ view (feed J t p))
      → view (onward (kept J x) next) ≡ view (kept J (extend x t))
  unfolding feed
  onward-extend (throws e, (b, p)) next t h = refl
  onward-extend (ok false, (b, p)) next t h = refl
  onward-extend (ok true, (b, p)) next t h = h (record { buffer = b; progress = p })

  feed-append :
      (c t : Text) (p : Parser)
      → view (kept J (extend (drain J (length (p.buffer ++ c)) (p.buffer ++ c) p.progress) t))
        ≡ view (feed J (c ++ t) p)
  unfolding feed
  feed-append c t p =
      ap (λ x. view (kept J x))
        (sym (
            drain-extend (length (p.buffer ++ c)) (length ((p.buffer ++ c) ++ t)) (p.buffer ++ c) t
              p.progress (omega arith) (omega arith))
          ∙ ap (λ b. drain J (length b) b p.progress) (append_assoc p.buffer c t))

  -- However the bytes of a stream are cut into chunks, feeding them has the same outcome, the same
  -- text, tool calls and deltas, and the same end of the stream, as feeding them at once.
  pub feed_all_lem :
      (chunk : Text) (chunks : List Text) (p : Parser)
      → view (feed_all chunk chunks p) ≡ view (feed J (chunk ++ bytes chunks) p)
  unfolding feed
  feed_all_lem chunk [] p = ap (λ t. view (feed J t p)) (sym (append-nil chunk))
  feed_all_lem chunk (next ∷ chunks) p =
      onward-extend (drain J (length (p.buffer ++ chunk)) (p.buffer ++ chunk) p.progress)
        (feed_all next chunks) (next ++ bytes chunks) (feed_all_lem next chunks)
      ∙ feed-append chunk (next ++ bytes chunks) p
