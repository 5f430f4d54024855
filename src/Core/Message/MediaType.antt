-- ===== src/Core/Message/MediaType.antt =====
-- `guess_media_type` of src/core/message.cpp, in the C locale.
use langchain_cpp.Base.{
  ℕ, ◌+◌, ◌&&◌, ◌||◌, [], ◌∷◌, Option, none, some, map, leb, ◌==◌, if◌then◌else◌,
}
use langchain_cpp.Base.Text.{Text, codes, text_eq}

-- path.substr(path.find_last_of(c) + 1)
unfoldable pub after_last : ℕ → Text → Option Text
after_last c [] = none
after_last c (x ∷ xs) = elim (after_last c xs) [
  | some r ↦ some r
  | none ↦ if x == c then some xs else none
]

unfoldable pub to_lower : ℕ → ℕ
to_lower c = if leb b'A' c && leb c b'Z' then c + 32 else c

unfoldable pub media_type_of : Text → Text
media_type_of ext =
    if text_eq ext (codes "png")
    then codes "image/png"
    else if text_eq ext (codes "jpg") || text_eq ext (codes "jpeg")
    then codes "image/jpeg"
    else if text_eq ext (codes "gif")
    then codes "image/gif"
    else if text_eq ext (codes "webp")
    then codes "image/webp"
    else []

unfoldable pub guess_media_type : Text → Text
unfolding after_last to_lower media_type_of
guess_media_type path = elim (after_last b'.' path) [
  | none ↦ []
  | some ext ↦ media_type_of (map to_lower ext)
]
