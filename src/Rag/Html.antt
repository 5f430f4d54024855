-- ===== src/Rag/Html.antt =====
-- src/rag/loaders/html_to_text.cpp: the visible text of a page. A tag's position in the lower-cased
-- page is that in the page.
pub mod Whitespace
pub mod Elements
use langchain_cpp.Base.{
  ℕ, suc, zero, Bool, true, false, not, ◌&&◌, ◌||◌, List, [], ◌∷◌, ◌++◌, map, Option, none, some,
  ◌+◌, ◌-◌, ◌==◌, ltb, leb, if◌then◌else◌, is_empty, length, take, drop,
}
use langchain_cpp.Base.Text.{Text, codes, break_at, break_on, strip_prefix}
use langchain_cpp.Base.Json.{is_some}

-- std::tolower in the "C" locale
abbrev pub lower : ℕ → ℕ
lower c = if leb 65 c && leb c 90 then c + 32 else c

abbrev pub to_lower : Text → Text
to_lower = map lower

-- html.substr(close_end + 1), with close_end where '>' was found behind `n` bytes
abbrev pub behind_end : Text → ℕ → Option (Text × Text) → Text
behind_end html n none = []
behind_end html n (some (c, d)) = drop (suc (n + length c)) html

abbrev pub behind_close : Text → Text → Option (Text × Text) → Text
behind_close html close_tag none = []
behind_close html close_tag (some (a, b)) =
    behind_end html (length a) (break_at b'>' (close_tag ++ b))

-- What stands behind the closing tag's '>', in a text that starts with the opening tag.
unfoldable pub behind_element : Text → Text → Text
behind_element close_tag html = behind_close html close_tag (break_on close_tag (to_lower html))

-- One round of the loop, which `rest` goes on with.
unfoldable pub remove_at : (Text → Text) → Text → Text → Option (Text × Text) → Text
unfolding behind_element
remove_at rest close_tag html none = html
remove_at rest close_tag html (some (a, b)) =
    take (length a) html ++ rest (behind_element close_tag (drop (length a) html))

-- The rounds of the loop, each of which passes an element.
unfoldable pub remove_from : ℕ → Text → Text → Text → Text
remove_from zero open_tag close_tag html = []
remove_from (suc n) open_tag close_tag html =
    remove_at (remove_from n open_tag close_tag) close_tag html (break_on open_tag (to_lower html))

unfoldable pub remove_elements_entirely : Text → Text → Text
unfolding remove_from
remove_elements_entirely html tag_name =
    remove_from (suc (length html)) (codes "<" ++ tag_name) (codes "</" ++ tag_name) html

-- text.find and text.replace, until the entity is not found behind the last replacement
unfoldable pub replace_all : ℕ → Text → Text → Text → Text
replace_all zero entity character text = text
replace_all (suc n) entity character text = elim (break_on entity text) [
  | none ↦ text
  | some (a, b) ↦ a ++ (character ++ replace_all n entity character b)
]

abbrev pub entities : List (Text × Text)
entities =
    (codes "&nbsp;", codes " ")
    ∷ (codes "&amp;", codes "&")
    ∷ (codes "&lt;", codes "<")
    ∷ (codes "&gt;", codes ">")
    ∷ (codes "&quot;", codes "\"")
    ∷ (codes "&apos;", codes "'")
    ∷ (codes "&#39;", codes "'")
    ∷ []

unfoldable pub decode_each : List (Text × Text) → Text → Text
unfolding replace_all
decode_each [] text = text
decode_each ((entity, character) ∷ rest) text =
    decode_each rest (replace_all (suc (length text)) entity character text)

unfoldable pub decode_entities : Text → Text
unfolding decode_each
decode_entities text = decode_each entities text

unfoldable pub has_prefix_of : List Text → Text → Bool
has_prefix_of [] tag = false
has_prefix_of (prefix ∷ prefixes) tag =
    is_some (strip_prefix prefix tag) || has_prefix_of prefixes tag

unfoldable pub is_closing_block_boundary : Text → Bool
unfolding has_prefix_of
is_closing_block_boundary = has_prefix_of (
    codes "br"
    ∷ codes "/p"
    ∷ codes "/div"
    ∷ codes "/li"
    ∷ codes "/h1"
    ∷ codes "/h2"
    ∷ codes "/h3"
    ∷ codes "/h4"
    ∷ codes "/h5"
    ∷ codes "/h6"
    ∷ codes "/tr"
    ∷ [])

unfoldable pub is_opening_block_tag : Text → Bool
unfolding has_prefix_of
is_opening_block_tag = has_prefix_of (
    codes "p"
    ∷ codes "div"
    ∷ codes "li"
    ∷ codes "h1"
    ∷ codes "h2"
    ∷ codes "h3"
    ∷ codes "h4"
    ∷ codes "h5"
    ∷ codes "h6"
    ∷ codes "tr"
    ∷ [])

-- What the '>' of a tag adds to the text.
unfoldable pub tag_text : Text → Text
unfolding is_closing_block_boundary is_opening_block_tag
tag_text lower_tag =
    if is_closing_block_boundary lower_tag
    then codes "\n"
    else if not (is_opening_block_tag lower_tag)
    then codes " "
    else []

-- The loop over the page: in_tag, and current_tag.
unfoldable pub strip_tags : Bool → Text → Text → Text
unfolding tag_text
strip_tags in_tag current_tag [] = []
strip_tags in_tag current_tag (c ∷ html) =
    let opened = strip_tags true [] html in
    let closed = strip_tags false current_tag html in
    let inside = strip_tags in_tag (current_tag ++ c ∷ []) html in
    let outside = strip_tags in_tag current_tag html in
    if c == b'<'
    then opened
    else if c == b'>'
    then tag_text (to_lower current_tag) ++ closed
    else if in_tag
    then inside
    else c ∷ outside

-- collapsed.append(n > 1 ? 2 : 1, '\n') where n > 0
unfoldable pub newlines : ℕ → Text
newlines zero = []
newlines (suc zero) = b'\n' ∷ []
newlines (suc (suc n)) = b'\n' ∷ b'\n' ∷ []

abbrev pub is_space : ℕ → Bool
is_space c = c == b' ' || c == b'\t' || c == b'\r'

-- The loop that collapses whitespace: consecutive_newlines, and last_was_space.
unfoldable pub collapse : ℕ → Bool → Text → Text
unfolding newlines
collapse n last_was_space [] = newlines n
collapse n last_was_space (c ∷ text) =
    let line = collapse (suc n) false text in
    let space = collapse 0 true text in
    let other = collapse 0 false text in
    if c == b'\n'
    then line
    else if is_space c
    then newlines n ++ (if last_was_space then space else b' ' ∷ space)
    else newlines n ++ c ∷ other

-- a byte of " \t\n"
abbrev pub is_trimmed : ℕ → Bool
is_trimmed c = c == b' ' || c == b'\t' || c == b'\n'

-- collapsed.substr(start, …) from find_first_not_of, and up to find_last_not_of
unfoldable pub trim_front : Text → Text
trim_front [] = []
trim_front (c ∷ s) = if is_trimmed c then trim_front s else c ∷ s

unfoldable pub trim_back : Text → Text
trim_back [] = []
trim_back (c ∷ s) = let rest = trim_back s in if is_empty rest && is_trimmed c then [] else c ∷ rest

unfoldable pub html_to_text : Text → Text
unfolding remove_elements_entirely strip_tags decode_entities collapse trim_front trim_back
html_to_text html =
    let without_scripts = remove_elements_entirely html (codes "script") in
    let without_styles = remove_elements_entirely without_scripts (codes "style") in
    let text = decode_entities (strip_tags false [] without_styles) in
    trim_back (trim_front (collapse 0 false text))
