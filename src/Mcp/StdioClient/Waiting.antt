-- ===== src/Mcp/StdioClient/Waiting.antt =====
-- What the wait for a response reads past, and how it ends.
use langchain_cpp.Base.{
  ◌≡◌, refl, true, false, List, [], ◌∷◌, ◌++◌, ◌⊎◌, inl, inr, arith, All, is_empty, Option-cases,
  none, some,
}
use langchain_cpp.Base.Text.{Text, codes}
use langchain_cpp.Base.Json.{Json, Integer, integer_eq, at, get_integer}
use langchain_cpp.Base.Outcome.{Outcome, ok, throws, ◌>>=◌}
use langchain_cpp.Mcp.JsonRpc.{build_request}
use langchain_cpp.Mcp.StdioClient.{is_skipped, is_other, wait_for, send_request}

module _ (J : Json) where
  open J use {Value, parse, dump, find}

  -- A notification, which has no id; a request of the server, which has a method; or an object with
  -- another number as its id.
  abbrev pub IsOther : Integer → Value → Type 0
  IsOther id m =
      (find (codes "id") m ≡ none)
      ⊎ (((method : Value) × (find (codes "method") m ≡ some method))
          ⊎ ((i : Integer) × (v : Value) × (J.is_object m ≡ true)
              × (find (codes "id") m ≡ some v)
              × (J.as_integer v ≡ some i)
              × (integer_eq i id ≡ false)))

  -- An empty line, one that is refused by a parse_error, or another message.
  abbrev pub IsNoise : Integer → Text → Type 0
  IsNoise id line =
      (line ≡ [])
      ⊎ (((e : Text) × (parse line ≡ throws e) × (J.is_parse_error e ≡ true))
          ⊎ ((m : Value) × (parse line ≡ ok m) × IsOther id m))

  -- A line with an object that has the id and no method.
  abbrev pub IsAnswer : Integer → Text → Value → Type 0
  IsAnswer id line m =
      (parse line ≡ ok m)
      × (J.is_object m ≡ true)
      × (find (codes "method") m ≡ none)
      × ((v : Value) × (find (codes "id") m ≡ some v) × (J.as_integer v ≡ some id))
      × (is_empty line ≡ false)

  skips_other : (id : Integer) (m : Value) → IsOther id m → is_skipped J id m ≡ ok true
  unfolding is_skipped is_other
  skips_other id m (inl none_there) = rw none_there refl
  skips_other id m (inr (inl (method, e))) = elim (Option-cases (find (codes "id") m)) [
    | inl f ↦ rw f refl
    | inr (v, f) ↦ rw (e, f) refl
  ]
  skips_other id m (inr (inr (i, v, o, f, n, d))) = elim (Option-cases (find (codes "method") m)) [
    | inl e ↦ rw (o, e, f, n, d) refl
    | inr (method, e) ↦ rw (e, f) refl
  ]

  wait_for_noise :
      (request : Value) (id : Integer) (line : Text) (lines : List Text)
      → IsNoise id line
      → wait_for J request id (line ∷ lines) ≡ wait_for J request id lines
  unfolding wait_for
  wait_for_noise request id [] lines h = refl
  wait_for_noise request id (c ∷ line) lines (inl e) = ground (arith, e)
  wait_for_noise request id (c ∷ line) lines (inr (inl (e, p, q))) = rw (p, q) refl
  wait_for_noise request id (c ∷ line) lines (inr (inr (m, p, q))) = rw (p, skips_other id m q) refl

  id_lem :
      (id : Integer) (method : Text) (params : Value)
      → (at J (codes "id") (build_request J id method params) >>= get_integer J) ≡ ok id
  unfolding build_request
  id_lem id method params = simp (J.is_object-object, J.find-object, J.as_integer-integer)

  -- What an answer means: its result, an empty object where it has none, or an exception with the message
  -- of its error.
  abbrev pub IsOutcome : Value → Outcome Value → Type 0
  IsOutcome m o =
      ((v : Value) × (find (codes "error") m ≡ none)
        × (find (codes "result") m ≡ some v)
        × (o ≡ ok v))
      ⊎ (((find (codes "error") m ≡ none)
            × (find (codes "result") m ≡ none)
            × (o ≡ ok (J.object [])))
          ⊎ ((e : Value) × (s : Value) × (text : Text) × (find (codes "error") m ≡ some e)
              × (J.is_object e ≡ true)
              × (find (codes "message") e ≡ some s)
              × (J.as_string s ≡ some text)
              × (o ≡ throws (codes "StdioClientTransport: request failed: " ++ text))))

  wait_for_end :
      (id : Integer) (method : Text) (params : Value)
      → (wait_for J (build_request J id method params) id []).0
        ≡ throws
            (codes "StdioClientTransport: server closed its output before responding to " ++ method)
  unfolding wait_for build_request
  wait_for_end id method params = simp (J.is_object-object, J.find-object, J.as_string-string)

  wait_for_closed :
      (id : Integer) (method : Text) (params : Value) (ls : List Text)
      → All (IsNoise id) ls
      → (wait_for J (build_request J id method params) id ls).0
        ≡ throws
            (codes "StdioClientTransport: server closed its output before responding to " ++ method)
  wait_for_closed id method params [] h = wait_for_end id method params
  wait_for_closed id method params (l ∷ ls) h =
      rw (wait_for_noise (build_request J id method params) id l ls h.0)
        (wait_for_closed id method params ls h.1)

  -- Where nothing but noise comes, the request ends with an exception.
  pub send_request_closed :
      (id : Integer) (method : Text) (params : Value) (noise outgoing : List Text)
      → All (IsNoise id) noise
      → (send_request J
          (build_request J id method params)
          (record { incoming = noise; outgoing = outgoing })).0
        ≡ throws
            (codes "StdioClientTransport: server closed its output before responding to " ++ method)
  unfolding send_request
  send_request_closed id method params noise outgoing h =
      rw (id_lem id method params) (wait_for_closed id method params noise h)
