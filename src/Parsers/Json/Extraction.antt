-- ===== src/Parsers/Json/Extraction.antt =====
-- Where in a reply the JSON is found.
use langchain_cpp.Base.{ℕ, ◌≡◌, refl, true, false, [], ◌∷◌, ◌++◌, none, some, arith, All}
use langchain_cpp.Base.Json.{Json}
use langchain_cpp.Base.Text.{Text, codes, Lacks, break_on-Lacks}
use langchain_cpp.Parsers.Json.{
  strip_code_fence, is_opener, is_closer, from_opener, to_closer, extract_json,
}

-- No byte of the text opens, or closes, an object or an array.
abbrev pub LacksOpener : Text → Type 0
LacksOpener = All (λ c. is_opener c ≡ false)

abbrev pub LacksCloser : Text → Type 0
LacksCloser = All (λ c. is_closer c ≡ false)

from_opener-append :
    (before : Text) (c : ℕ) (s : Text)
    → LacksOpener before
    → is_opener c ≡ true
    → from_opener (before ++ (c ∷ s)) ≡ some (c ∷ s)
unfolding from_opener
from_opener-append [] c s h o = rw o
from_opener-append (x ∷ before) c s h o = rw (h.0, from_opener-append before c s h.1 o)

to_closer-LacksCloser : (s : Text) → LacksCloser s → to_closer s ≡ none
unfolding to_closer
to_closer-LacksCloser [] h = refl
to_closer-LacksCloser (x ∷ s) h = rw (to_closer-LacksCloser s h.1, h.0)

to_closer-append :
    (s : Text) (c : ℕ) (after : Text)
    → is_closer c ≡ true
    → LacksCloser after
    → to_closer (s ++ (c ∷ after)) ≡ some (s ++ c ∷ [])
unfolding to_closer
to_closer-append [] c after o h = rw (to_closer-LacksCloser after h, o)
to_closer-append (x ∷ s) c after o h = rw (to_closer-append s c after o h)

-- What lies between the first opener and the last closer, with some text around it.
abbrev pub around : Text → ℕ → Text → ℕ → Text → Text
around before first middle last after = before ++ (first ∷ (middle ++ (last ∷ after)))

strip-unfenced : (s : Text) → Lacks b'`' s → strip_code_fence s ≡ s
unfolding strip_code_fence
strip-unfenced s h = ground (arith, break_on-Lacks b'`' (codes "``") s h)

module _ (J : Json) where
  -- In a reply with no fence, the text from the first opening brace or bracket to the last closing
  -- one is parsed, whatever stands between them.
  pub extract_json_plain :
      (before : Text) (first : ℕ) (middle : Text) (last : ℕ) (after : Text)
      → Lacks b'`' (around before first middle last after)
      → LacksOpener before
      → is_opener first ≡ true
      → is_closer last ≡ true
      → LacksCloser after
      → extract_json J (around before first middle last after)
        ≡ J.parse (first ∷ (middle ++ last ∷ []))
  unfolding extract_json
  extract_json_plain before first middle last after h hb o c ha = ground (
    arith,
    strip-unfenced (around before first middle last after) h,
    from_opener-append before first (middle ++ (last ∷ after)) hb o,
    to_closer-append (first ∷ middle) last after c ha,
  )
