-- ===== src/Rag/Html/Elements.antt =====
-- remove_elements_entirely on a page that is given by its elements.
use langchain_cpp.Base.{
  ℕ, suc, zero, false, List, [], ◌∷◌, ◌++◌, ◌≡◌, refl, ap, some, none, ◌==◌, ◌+◌, ◌<◌, arith, All,
  length, length-append, drop, take-length, drop-length, append_assoc, All-append, sym, subst,
}
use langchain_cpp.Base.Text.{Text, Lacks, break_on, break_on_before, break_at-append}
use langchain_cpp.Rag.Html.{
  to_lower, lower, behind_element, remove_from, remove_at, remove_elements_entirely,
}

to_lower-append : (a b : Text) → to_lower (a ++ b) ≡ to_lower a ++ to_lower b
to_lower-append [] b = refl
to_lower-append (x ∷ a) b = ap (λ s. lower x ∷ s) (to_lower-append a b)

length-to_lower : (a : Text) → length (to_lower a) ≡ length a
length-to_lower [] = refl
length-to_lower (x ∷ a) = ap suc (length-to_lower a)

to_lower-Lacks : (s : Text) → Lacks b'>' s → Lacks b'>' (to_lower s)
to_lower-Lacks [] h = tt
to_lower-Lacks (x ∷ s) h = ground (arith, to_lower-Lacks s h.1)

-- An element, with the text before it: `opening` is "<tag" and `closing` "</tag" in any case.
pub record Element : Type 0 where
  pub before : Text
  pub opening : Text
  pub inner : Text
  pub closing : Text
  pub tail : Text

abbrev pub print_element : Element → Text → Text
print_element e rest =
    e.before ++ ((e.opening ++ e.inner) ++ ((e.closing ++ e.tail) ++ b'>' ∷ rest))

abbrev pub print_page : List Element → Text → Text
print_page [] last = last
print_page (e ∷ es) last = print_element e (print_page es last)

abbrev pub texts_between : List Element → Text → Text
texts_between [] last = last
texts_between (e ∷ es) last = e.before ++ texts_between es last

-- The opening tag is the first one behind the element before, and the closing tag the first one
-- behind that.
abbrev pub IsElement : Text → Element → Type 0
IsElement tag e =
    (to_lower e.opening ≡ b'<' ∷ tag)
    × (to_lower e.closing ≡ b'<' ∷ b'/' ∷ tag)
    × (break_on (b'<' ∷ tag) (to_lower (e.before ++ e.opening)) ≡ some (to_lower e.before, []))
    × (break_on (b'<' ∷ b'/' ∷ tag) (to_lower ((e.opening ++ e.inner) ++ e.closing))
        ≡ some (to_lower (e.opening ++ e.inner), []))
    × Lacks b'>' e.tail

find_in :
    (c : ℕ) (p a o r : Text)
    → break_on (c ∷ p) (to_lower (a ++ o)) ≡ some (to_lower a, [])
    → break_on (c ∷ p) (to_lower (a ++ (o ++ r))) ≡ some (to_lower a, to_lower r)
find_in c p a o r h =
    rw (sym (append_assoc a o r), to_lower-append (a ++ o) r)
      (break_on_before c p (to_lower (a ++ o)) (to_lower r) h)

-- The bytes up to a '>' are dropped with it.
drop_past :
    (a b rest : Text) (n : ℕ)
    → n ≡ suc (length a + length b)
    → drop n (a ++ (b ++ b'>' ∷ rest)) ≡ rest
drop_past a b rest n h =
    let x = (a ++ b) ++ b'>' ∷ [] in
    subst (λ m. drop m (a ++ (b ++ b'>' ∷ rest)) ≡ rest) {x = length x}
      (omega (arith, h, length-append (a ++ b) (b'>' ∷ []), length-append a b))
      (rw (sym (append_assoc a b (b'>' ∷ rest)), sym (append_assoc (a ++ b) (b'>' ∷ []) rest))
        (drop-length x rest))

module _ (tag : Text) (lacks : Lacks b'>' tag) where
  behind_element_lem :
      (e : Element) (rest : Text)
      → IsElement tag e
      → behind_element
          (b'<' ∷ b'/' ∷ tag)
          ((e.opening ++ e.inner) ++ ((e.closing ++ e.tail) ++ b'>' ∷ rest))
        ≡ rest
  unfolding behind_element
  behind_element_lem e rest (o, c, f, g, t) =
      let a = e.opening ++ e.inner in
      let close = b'<' ∷ b'/' ∷ tag in
      let tail = to_lower e.tail in
      rw
        (
          append_assoc e.closing e.tail (b'>' ∷ rest),
          find_in b'<' (b'/' ∷ tag) a e.closing (e.tail ++ b'>' ∷ rest) g,
          to_lower-append e.tail (b'>' ∷ rest),
          length-to_lower a,
          sym (append_assoc tag tail (b'>' ∷ to_lower rest)),
          break_at-append b'>' (close ++ tail) (to_lower rest) (
            refl,
            (refl, All-append (λ x. (x == b'>') ≡ false) tag tail lacks (to_lower-Lacks e.tail t)),
          ),
          sym (append_assoc e.closing e.tail (b'>' ∷ rest)),
        )
        (drop_past a (e.closing ++ e.tail) rest (suc (length a + length (close ++ tail))) (
          omega (
            arith,
            length-append close tail,
            length-append e.closing e.tail,
            length-to_lower e.tail,
            length-to_lower e.closing,
            ap length c,
          )))

  remove_from-print :
      (n : ℕ) (es : List Element) (last : Text)
      → All (IsElement tag) es
      → break_on (b'<' ∷ tag) (to_lower last) ≡ none
      → length (print_page es last) < n
      → remove_from n (b'<' ∷ tag) (b'<' ∷ b'/' ∷ tag) (print_page es last) ≡ texts_between es last
  unfolding remove_from remove_at
  remove_from-print zero es last h l b = ground arith
  remove_from-print (suc n) [] last h l b = rw l refl
  remove_from-print (suc n) (e ∷ es) last ((o, c, f, g, t), hs) l b =
      let rest = print_page es last in
      let tail = (e.closing ++ e.tail) ++ b'>' ∷ rest in
      rw
        (
          append_assoc e.opening e.inner tail,
          find_in b'<' tag e.before e.opening (e.inner ++ tail) f,
          sym (append_assoc e.opening e.inner tail),
          length-to_lower e.before,
          take-length e.before ((e.opening ++ e.inner) ++ tail),
          drop-length e.before ((e.opening ++ e.inner) ++ tail),
          behind_element_lem e rest (o, c, f, g, t),
          remove_from-print n es last hs l (
              omega (
                arith,
                length-append e.before ((e.opening ++ e.inner) ++ tail),
                length-append (e.opening ++ e.inner) tail,
                length-append (e.closing ++ e.tail) (b'>' ∷ rest),
                b,
              )),
        )
        refl

-- On a page that is printed from elements of a tag without >, each of which opens at the first <tag
-- behind the one before and ends with the first </tag behind that, whatever their case, and from a last
-- text without <tag, each element goes with what it holds and what stands between them is kept.
pub remove_elements_entirely-print :
    (tag : Text) (es : List Element) (last : Text)
    → Lacks b'>' tag
    → All (IsElement tag) es
    → break_on (b'<' ∷ tag) (to_lower last) ≡ none
    → remove_elements_entirely (print_page es last) tag ≡ texts_between es last
unfolding remove_elements_entirely
remove_elements_entirely-print tag es last lacks hs l =
    remove_from-print tag lacks (suc (length (print_page es last))) es last hs l (omega arith)
