-- ===== src/Mcp/HttpServer/Framing.antt =====
-- How the bytes of a request are cut into chunks does not matter.
use langchain_cpp.Base.{
  ℕ, zero, suc, ◌≤◌, ltb, ◌≡◌, refl, sym, ap, ◌∙◌, List, [], ◌∷◌, ◌++◌, arith, Bool-cases,
  Option-cases, inl, inr, take, length, length-append, append-nil, append_assoc,
}
use langchain_cpp.Base.Text.{bytes, Text, break_on, break_on_before}
use langchain_cpp.Base.Outcome.{Outcome, ok, throws, ◌>>=◌}
use langchain_cpp.Mcp.HttpRequest.{
  request_with, crlf, read_head, read_body, read_request, read_raw_request, request_line,
  method_path, add_headers, content_length,
}

abbrev Head : Type 0
Head = Text × (Text × List Text)

abbrev gathered : Outcome Head → Outcome Head
gathered (ok (head, (rest, chunks))) = ok (head, (rest ++ bytes chunks, []))
gathered (throws e) = throws e

take_before : (n : ℕ) (a b : Text) → n ≤ length a → take n (a ++ b) ≡ take n a
take_before zero a b h = refl
take_before (suc n) [] b h = ground arith
take_before (suc n) (x ∷ a) b h = ground (arith, take_before n a b)

read_body_lem :
    (n : ℕ) (body : Text) (chunks : List Text)
    → read_body n body chunks ≡ read_body n (body ++ bytes chunks) []
unfolding read_body
read_body_lem n body [] = simp append-nil
read_body_lem n body (chunk ∷ chunks) = elim (Bool-cases (ltb (length body) n)) [
  | inl t ↦ rw t (
      read_body_lem n (body ++ chunk) chunks
      ∙ ap (λ b. read_body n b []) (append_assoc body chunk (bytes chunks)))
  | inr f ↦ ground (
    arith,
    f,
    take_before n body (chunk ++ bytes chunks),
    length-append body (chunk ++ bytes chunks),
  )
]

read_head_end : (buffer : Text) → gathered (read_head buffer []) ≡ read_head buffer []
unfolding read_head
read_head_end buffer = elim (Option-cases (break_on (crlf ++ crlf) buffer)) [
  | inl e ↦ rw e
  | inr ((h, r), e) ↦ rw e (ap (λ t. ok (h, (t, []))) (append-nil r))
]

read_head_lem :
    (buffer : Text) (chunks : List Text)
    → gathered (read_head buffer chunks) ≡ read_head (buffer ++ bytes chunks) []
unfolding read_head
read_head_lem buffer [] = read_head_end buffer ∙ ap (λ b. read_head b []) (sym (append-nil buffer))
read_head_lem buffer (chunk ∷ chunks) = elim (Option-cases (break_on (crlf ++ crlf) buffer)) [
  | inl e ↦ rw e (
      read_head_lem (buffer ++ chunk) chunks
      ∙ ap (λ b. read_head b []) (append_assoc buffer chunk (bytes chunks)))
  | inr ((h, r), e) ↦
      rw (e, break_on_before 13 (10 ∷ crlf) buffer (chunk ++ bytes chunks) {a = h} {b = r} e)
]

read_request_lem :
    (head rest : Text) (chunks : List Text)
    → read_request (head, (rest, chunks)) ≡ read_request (head, (rest ++ bytes chunks, []))
unfolding read_request
read_request_lem head rest chunks =
    let (line, header_text) = request_line head in
    let (method, path) = method_path line in
    let headers = add_headers (length header_text) header_text [] in
    elim (content_length headers)
      as (λ o.
        (o >>= λ n. read_body n rest chunks >>= λ body. ok (request_with method path headers body))
        ≡ (o >>= λ n. read_body n (rest ++ bytes chunks) [] >>= λ body.
            ok (request_with method path headers body))) [
              | throws e ↦ refl
              | ok n ↦
                  ap (λ b. b >>= λ body. ok (request_with method path headers body))
                    (read_body_lem n rest chunks)
            ]

read_gathered : (o : Outcome Head) → (o >>= read_request) ≡ (gathered o >>= read_request)
read_gathered (ok (head, (rest, chunks))) = read_request_lem head rest chunks
read_gathered (throws e) = refl

-- A request is read alike from any two runs of chunks that hold the same bytes.
pub read_raw_request_lem :
    (chunks others : List Text)
    → bytes chunks ≡ bytes others
    → read_raw_request chunks ≡ read_raw_request others
unfolding read_raw_request
read_raw_request_lem chunks others e =
    read_gathered (read_head [] chunks)
    ∙ (ap (λ o. o >>= read_request)
          (read_head_lem [] chunks ∙ (ap (λ b. read_head b []) e ∙ sym (read_head_lem [] others)))
        ∙ sym (read_gathered (read_head [] others)))
