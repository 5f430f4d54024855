-- ===== src/Base/Join.antt =====
-- Pieces with a separator between them, as the loops over `i > 0` build them.
use Prim.Native.Nat.{ℕ}
use mathlib.Core.Path.{◌≡◌, refl}
use mathlib.Core.Bool.{not}
use mathlib.Core.List.{List, [], ◌∷◌, ◌++◌, append-nil, append_assoc}
use langchain_cpp.Base.Tests.{if◌then◌else◌}
use langchain_cpp.Base.Lists.{is_empty}
use langchain_cpp.Base.Text.{Text}

unfoldable pub joined_behind : Text → List Text → Text
joined_behind separator [] = []
joined_behind separator (piece ∷ pieces) = separator ++ (piece ++ joined_behind separator pieces)

unfoldable pub join : Text → List Text → Text
unfolding joined_behind
join separator [] = []
join separator (piece ∷ pieces) = piece ++ joined_behind separator pieces

joined_behind-concat :
    (separator : Text) (ps : List Text) (p : Text)
    → joined_behind separator (ps ++ p ∷ []) ≡ joined_behind separator ps ++ (separator ++ p)
unfolding joined_behind
joined_behind-concat separator [] p = rw append-nil
joined_behind-concat separator (q ∷ ps) p =
    rw (joined_behind-concat separator ps p) (simp append_assoc)

-- One more piece behind others.
pub join-concat :
    (separator : Text) (q : Text) (ps : List Text) (p : Text)
    → join separator ((q ∷ ps) ++ p ∷ []) ≡ join separator (q ∷ ps) ++ (separator ++ p)
unfolding join
join-concat separator q ps p = rw (joined_behind-concat separator ps p) (simp append_assoc)

-- The loops that put the separator where the text so far is not empty.
unfoldable pub append_part : Text → Text → Text → Text
append_part separator text piece =
    (if not (is_empty text) then text ++ separator else text) ++ piece

unfoldable pub append_parts : Text → List Text → Text → Text
append_parts separator [] text = text
append_parts separator (piece ∷ pieces) text =
    append_parts separator pieces (append_part separator text piece)

-- The pieces from the first one that is not empty.
abbrev pub from_nonempty : List Text → List Text
from_nonempty [] = []
from_nonempty ([] ∷ pieces) = from_nonempty pieces
from_nonempty ((c ∷ piece) ∷ pieces) = (c ∷ piece) ∷ pieces

append_parts-behind :
    (separator : Text) (pieces : List Text) (c : ℕ) (text : Text)
    → append_parts separator pieces (c ∷ text) ≡ (c ∷ text) ++ joined_behind separator pieces
unfolding append_parts append_part joined_behind
append_parts-behind separator [] c text = rw append-nil
append_parts-behind separator (piece ∷ pieces) c text =
    rw (append_parts-behind separator pieces c ((text ++ separator) ++ piece)) (simp append_assoc)

-- Such a loop joins the pieces, but for the empty ones that come first.
pub append_parts_lem :
    (separator : Text) (pieces : List Text)
    → append_parts separator pieces [] ≡ join separator (from_nonempty pieces)
unfolding append_parts append_part join
append_parts_lem separator [] = refl
append_parts_lem separator ([] ∷ pieces) = append_parts_lem separator pieces
append_parts_lem separator ((c ∷ piece) ∷ pieces) = append_parts-behind separator pieces c piece
