-- ===== src/Llm/Caching/Key.antt =====
-- What the cache's key tells apart.
use langchain_cpp.Base.{◌≡◌, refl, ap, ◌∙◌, sym, ◌↔◌, List, [], ◌∷◌, map, arith}
use langchain_cpp.Base.Text.{Text, codes}
use langchain_cpp.Base.Dict.{Dict, lookup}
use langchain_cpp.Base.Json.{Json, RoundTrips, dump_injective, Integer, natural}
use langchain_cpp.Core.Message.{Message, MessageRole, ToolCall, ImageContent}
use langchain_cpp.Llm.Caching.{
  role_number, cache_call, cache_image, message_to_cache_json, make_cache_key,
}

-- What of an image stands in the key: not its source type.
pub record ImageKey : Type 0 where
  pub image_data : Text
  pub media_type : Text

abbrev pub image_key : ImageContent → ImageKey
image_key i = record { image_data = i.image_data; media_type = i.media_type }

pub record MessageKey (V : Type 0) : Type 0 where
  pub role : MessageRole
  pub content : Text
  pub tool_call_id : Text
  pub tool_calls : List (ToolCall V)
  pub images : List ImageKey

abbrev pub message_key : {V : Type 0} → Message V → MessageKey V
message_key m = record {
  role = m.role;
  content = m.content;
  tool_call_id = m.tool_call_id;
  tool_calls = m.tool_calls;
  images = map image_key m.images;
}

role_number_injective : (a b : MessageRole) → role_number a ≡ role_number b → a ≡ b
role_number_injective a b h = ground arith

map_injective :
    {A B C : Type 0} (f : A → B) (g : A → C)
    → ((x y : A) → f x ≡ f y → g x ≡ g y)
    → (xs ys : List A) → map f xs ≡ map f ys
    → map g xs ≡ map g ys
map_injective f g h [] [] e = refl
map_injective f g h [] (y ∷ ys) e = cc
map_injective f g h (x ∷ xs) [] e = cc
map_injective f g h (x ∷ xs) (y ∷ ys) e = cc (h x y (cc), map_injective f g h xs ys (cc))

map_eq :
    {A B : Type 0} (f : A → B)
    → ((x y : A) → f x ≡ f y → x ≡ y)
    → (xs ys : List A) → map f xs ≡ map f ys
    → xs ≡ ys
map_eq f h [] [] e = refl
map_eq f h [] (y ∷ ys) e = cc
map_eq f h (x ∷ xs) [] e = cc
map_eq f h (x ∷ xs) (y ∷ ys) e = cc (h x y (cc), map_eq f h xs ys (cc))

module _ (J : Json) where
  open J use {Value, array, object, string, integer, dump}

  array_injective : (xs ys : List Value) → array xs ≡ array ys → xs ≡ ys
  array_injective xs ys e = cc (J.elements-array xs, J.elements-array ys, ap J.elements e)

  string_injective : (s t : Text) → string s ≡ string t → s ≡ t
  string_injective s t e = cc (J.as_string-string s, J.as_string-string t, ap J.as_string e)

  integer_injective : (a b : Integer) → integer a ≡ integer b → a ≡ b
  integer_injective a b e = cc (J.as_integer-integer a, J.as_integer-integer b, ap J.as_integer e)

  member_eq : (fs gs : Dict Value) → object fs ≡ object gs → (k : Text) → lookup k fs ≡ lookup k gs
  member_eq fs gs e k = sym (J.find-object k fs) ∙ ap (J.find k) e ∙ J.find-object k gs

  call_eq : (a b : ToolCall Value) → cache_call J a ≡ cache_call J b → a ≡ b
  unfolding cache_call
  call_eq a b e =
      let member = member_eq _ _ e in
      let id : a.id ≡ b.id = string_injective _ _ (let m = member (codes "id") in cc) in
      let name : a.tool_name ≡ b.tool_name =
        string_injective _ _ (let m = member (codes "name") in cc) in
      let arguments : a.arguments ≡ b.arguments = let m = member (codes "arguments") in cc in
      λ i. record { id = id i; tool_name = name i; arguments = arguments i }

  image_eq : (a b : ImageContent) → cache_image J a ≡ cache_image J b → image_key a ≡ image_key b
  unfolding cache_image
  image_eq a b e =
      let member = member_eq _ _ e in
      let bytes : a.image_data ≡ b.image_data =
        string_injective _ _ (let m = member (codes "data") in cc) in
      let kind : a.media_type ≡ b.media_type =
        string_injective _ _ (let m = member (codes "media_type") in cc) in
      λ i. record { image_data = bytes i; media_type = kind i }

  message_eq :
      (a b : Message Value)
      → message_to_cache_json J a ≡ message_to_cache_json J b
      → message_key a ≡ message_key b
  unfolding message_to_cache_json
  message_eq a b e =
      let member = member_eq _ _ e in
      let number : natural (role_number a.role) ≡ natural (role_number b.role) =
        integer_injective _ _ (let m = member (codes "role") in cc) in
      let role : a.role ≡ b.role = role_number_injective a.role b.role (cc) in
      let content : a.content ≡ b.content =
        string_injective _ _ (let m = member (codes "content") in cc) in
      let id : a.tool_call_id ≡ b.tool_call_id =
        string_injective _ _ (let m = member (codes "tool_call_id") in cc) in
      let calls : a.tool_calls ≡ b.tool_calls =
        map_eq (cache_call J) call_eq a.tool_calls b.tool_calls
          (array_injective _ _ (let m = member (codes "tool_calls") in cc)) in
      let images : map image_key a.images ≡ map image_key b.images =
        map_injective (cache_image J) image_key image_eq a.images b.images
          (array_injective _ _ (let m = member (codes "images") in cc)) in
      λ i. record {
        role = role i;
        content = content i;
        tool_call_id = id i;
        tool_calls = calls i;
        images = images i;
      }

  image_json_eq :
      (a b : ImageContent) → image_key a ≡ image_key b → cache_image J a ≡ cache_image J b
  unfolding cache_image
  image_json_eq a b e =
      cc (ap (λ (k : ImageKey). k.image_data) e, ap (λ (k : ImageKey). k.media_type) e)

  message_json_eq :
      (a b : Message Value)
      → message_key a ≡ message_key b
      → message_to_cache_json J a ≡ message_to_cache_json J b
  unfolding message_to_cache_json
  message_json_eq a b e =
      let images : map (cache_image J) a.images ≡ map (cache_image J) b.images =
        map_injective image_key (cache_image J) image_json_eq a.images b.images
          (ap (λ (k : MessageKey Value). k.images) e) in
      cc (
        ap (λ (k : MessageKey Value). k.role) e,
        ap (λ (k : MessageKey Value). k.content) e,
        ap (λ (k : MessageKey Value). k.tool_call_id) e,
        ap (λ (k : MessageKey Value). k.tool_calls) e,
      )

  -- Two requests have the same key exactly when they agree in the model's name, in the signature
  -- of the bound tools, and, message by message, in the role, the content, the tool call's id, the
  -- tool calls, and each image's data and media type. (An image's source type is not compared.)
  pub make_cache_key_iff :
      RoundTrips J
      → (name name' signature signature' : Text) (messages messages' : List (Message Value))
      → (make_cache_key J name signature messages ≡ make_cache_key J name' signature' messages') ↔ (
          (name ≡ name')
          × (signature ≡ signature')
          × (map message_key messages ≡ map message_key messages'))
  unfolding make_cache_key
  make_cache_key_iff r name name' signature signature' messages messages' = (
    λ e.
        let es = array_injective _ _ (dump_injective J r _ _ e) in
        (
          string_injective _ _ (cc),
          string_injective _ _ (cc),
          map_injective (message_to_cache_json J) message_key message_eq messages messages' (cc),
        ),
    λ h.
        let ms =
          map_injective message_key (message_to_cache_json J) message_json_eq messages messages'
            h.2 in
        cc (h.0, h.1),
  )
