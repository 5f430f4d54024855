-- ===== src/Mcp/HttpServer/Guards.antt =====
-- Which origins count as local, and which requests reach the tools.
use langchain_cpp.Base.{
  ◌⊎◌, ◌≡◌, refl, sym, subst, true, false, ◌++◌, Option, none, some, arith, Bool-cases,
  Option-cases, inl, inr, ◌↔◌,
}
use langchain_cpp.Base.Text.{
  Text, codes, text_eq, text_eq_iff, strip_prefix, strip_prefix-append, strip_prefix_sound,
}
use langchain_cpp.Base.Dict.{lookup}
use langchain_cpp.Base.Json.{Json}
use langchain_cpp.Base.Outcome.{ok, throws}
use langchain_cpp.Tools.Registry.{ToolRegistry}
use langchain_cpp.Mcp.HttpRequest.{RawRequest}
use langchain_cpp.Mcp.HttpServer.{
  RawResponse, empty_response, starts_with, origin_is_local, is_foreign, respond,
}

-- A scheme, a host, and what follows, which need not end the host's name.
abbrev pub IsLocal : Text → Type 0
IsLocal origin =
    (scheme : Text) × (host : Text) × (rest : Text) × ((scheme ≡ codes "http")
      ⊎ (scheme ≡ codes "https"))
    × ((host ≡ codes "localhost") ⊎ (host ≡ codes "127.0.0.1"))
    × (origin ≡ (scheme ++ (codes "://" ++ host)) ++ rest)

starts_with-append : (prefix s : Text) → starts_with prefix (prefix ++ s) ≡ true
unfolding starts_with
starts_with-append prefix s = rw (strip_prefix-append prefix s)

starts_with_sound :
    (prefix s : Text) → starts_with prefix s ≡ true → (rest : Text) × (s ≡ prefix ++ rest)
unfolding starts_with
starts_with_sound prefix s h = elim (Option-cases (strip_prefix prefix s)) [
  | inl e ↦ ground (arith, e)
  | inr (rest, e) ↦ (rest, strip_prefix_sound prefix s e)
]

local_prefix :
    (scheme host rest : Text)
    → (scheme ≡ codes "http") ⊎ (scheme ≡ codes "https")
    → (host ≡ codes "localhost") ⊎ (host ≡ codes "127.0.0.1")
    → origin_is_local ((scheme ++ (codes "://" ++ host)) ++ rest) ≡ true
unfolding origin_is_local
local_prefix scheme host rest (inl s) (inl h) =
    rw (s, h) (ground (arith, starts_with-append (codes "http://localhost") rest))
local_prefix scheme host rest (inl s) (inr h) =
    rw (s, h) (ground (arith, starts_with-append (codes "http://127.0.0.1") rest))
local_prefix scheme host rest (inr s) (inl h) =
    rw (s, h) (ground (arith, starts_with-append (codes "https://localhost") rest))
local_prefix scheme host rest (inr s) (inr h) =
    rw (s, h) (ground (arith, starts_with-append (codes "https://127.0.0.1") rest))

found-IsLocal :
    (scheme host origin : Text)
    → (scheme ≡ codes "http") ⊎ (scheme ≡ codes "https")
    → (host ≡ codes "localhost") ⊎ (host ≡ codes "127.0.0.1")
    → starts_with (scheme ++ (codes "://" ++ host)) origin ≡ true
    → IsLocal origin
found-IsLocal scheme host origin s h found =
    let (rest, e) = starts_with_sound (scheme ++ (codes "://" ++ host)) origin found in
    (scheme, host, rest, s, h, e)

origin_is_local_sound : (origin : Text) → origin_is_local origin ≡ true → IsLocal origin
unfolding origin_is_local
origin_is_local_sound origin h = elim (Bool-cases (starts_with (codes "http://localhost") origin)) [
  | inl e ↦ found-IsLocal (codes "http") (codes "localhost") origin (inl refl) (inl refl) e
  | inr a ↦ elim (Bool-cases (starts_with (codes "http://127.0.0.1") origin)) [
    | inl e ↦ found-IsLocal (codes "http") (codes "127.0.0.1") origin (inl refl) (inr refl) e
    | inr b ↦ elim (Bool-cases (starts_with (codes "https://localhost") origin)) [
      | inl e ↦ found-IsLocal (codes "https") (codes "localhost") origin (inr refl) (inl refl) e
      | inr c ↦ elim (Bool-cases (starts_with (codes "https://127.0.0.1") origin)) [
        | inl e ↦ found-IsLocal (codes "https") (codes "127.0.0.1") origin (inr refl) (inr refl) e
        | inr d ↦ ground (arith, a, b, c, d, h)
      ]
    ]
  ]
]

-- An origin counts as local exactly where it starts with http or https, then ://, and then localhost or
-- 127.0.0.1, whatever follows, so whatever host it names in full.
pub origin_is_local_iff : (origin : Text) → (origin_is_local origin ≡ true) ↔ IsLocal origin
origin_is_local_iff origin = (
  origin_is_local_sound origin,
  λ (scheme, host, rest, s, h, e).
      subst (λ o. origin_is_local o ≡ true) (sym e) (local_prefix scheme host rest s h),
)

-- The four ways to refuse a request.
pub data Refusal : Type 0 where
  foreign_origin other_path other_method not_json : Refusal

abbrev pub refusal_response : Refusal → RawResponse
refusal_response foreign_origin = empty_response 403 (codes "Forbidden")
refusal_response other_path = empty_response 404 (codes "Not Found")
refusal_response other_method = empty_response 405 (codes "Method Not Allowed")
refusal_response not_json = empty_response 400 (codes "Bad Request")

-- There is no Origin header, or one that starts with a local origin.
abbrev pub Admits : Option Text → Type 0
Admits none = Unit
Admits (some origin) = IsLocal origin

Admits-foreign : (origin : Option Text) → Admits origin → is_foreign origin ≡ false
Admits-foreign none h = refl
Admits-foreign (some origin) h = rw ((origin_is_local_iff origin).1 h) refl

foreign_lem :
    (found : Option Text) (origin : Text)
    → found ≡ some origin
    → ¬ IsLocal origin
    → is_foreign found ≡ true
foreign_lem found origin e n = elim (Bool-cases (origin_is_local origin)) [
  | inl l ↦ absurd (n ((origin_is_local_iff origin).0 l))
  | inr f ↦ rw (e, f) refl
]

other_text : (a b : Text) → ¬ (a ≡ b) → text_eq a b ≡ false
other_text a b n = elim (Bool-cases (text_eq a b)) [
  | inl e ↦ absurd (n (ground (arith, text_eq_iff a b, e)))
  | inr f ↦ f
]

same_text : (a b : Text) → a ≡ b → text_eq a b ≡ true
same_text a b e = ground (arith, text_eq_iff a b, e)

module _ (J : Json) {W : Type 0} (registry : ToolRegistry J.Value W) (server_path : Text) where
  -- When each is due: the first thing that is wrong decides.
  abbrev pub IsRefused : Refusal → RawRequest → Type 0
  IsRefused foreign_origin request =
      (origin : Text) × (lookup (codes "origin") request.headers ≡ some origin) × ¬ IsLocal origin
  IsRefused other_path request =
      Admits (lookup (codes "origin") request.headers) × ¬ (request.path ≡ server_path)
  IsRefused other_method request =
      Admits (lookup (codes "origin") request.headers)
      × (request.path ≡ server_path)
      × ¬ (request.method ≡ codes "POST")
  IsRefused not_json request =
      Admits (lookup (codes "origin") request.headers)
      × (request.path ≡ server_path)
      × (request.method ≡ codes "POST")
      × ((e : Text) × (J.parse request.body ≡ throws e) × (J.is_parse_error e ≡ true))

  -- A request with an origin that does not start with a local one is answered 403; else one with another
  -- path 404; else one with another method than POST 405; else one whose body is refused by a
  -- parse_error 400: each with an empty body, and no tool is called and nothing changes.
  pub respond_refused :
      (refusal : Refusal) (request : RawRequest) (w : W)
      → IsRefused refusal request
      → respond J registry server_path request w ≡ (ok (refusal_response refusal), w)
  unfolding respond
  respond_refused foreign_origin request w (origin, e, n) =
      rw (foreign_lem (lookup (codes "origin") request.headers) origin e n) refl
  respond_refused other_path request w (a, n) =
      rw
        (
          Admits-foreign (lookup (codes "origin") request.headers) a,
          other_text request.path server_path n,
        )
        refl
  respond_refused other_method request w (a, p, n) =
      rw
        (
          Admits-foreign (lookup (codes "origin") request.headers) a,
          same_text request.path server_path p,
          other_text request.method (codes "POST") n,
        )
        refl
  respond_refused not_json request w (a, p, m, (e, q, t)) =
      rw
        (
          Admits-foreign (lookup (codes "origin") request.headers) a,
          same_text request.path server_path p,
          same_text request.method (codes "POST") m,
          q,
          t,
        )
        refl
