-- ===== src/Base/Json/Sample.antt =====
-- A type of JSON values, written as trees of numbers and dumped in postfix order: an instance at
-- which the laws of Base.Json hold.
use langchain_cpp.Base.Lists.{length}
use Prim.Native.Nat.{ℕ, zero, suc}
use mathlib.Core.Path.{◌≡◌, refl, ap, sym, ◌∙◌}
use mathlib.Core.Bool.{Bool, true, false}
use mathlib.Core.List.{List, [], ◌∷◌, ◌++◌, append_assoc, append-nil}
use mathlib.Core.Option.{Option, none, some}
use langchain_cpp.Base.Text.{Text, codes, text_eq}
use langchain_cpp.Base.Dict.{Dict, lookup}
use langchain_cpp.Base.Outcome.{Outcome, ok, throws}
use langchain_cpp.Base.Tests.{◌==◌, if◌then◌else◌}
use langchain_cpp.Base.Json.{Json, Integer, natural, negative, RoundTrips}

pub data Tree : Type 0 where
  leaf : ℕ → Tree
  node : Tree → Tree → Tree

abbrev tag : Tree → ℕ
tag (leaf n) = 0
tag (node (leaf n) t) = n
tag (node (node a b) t) = 0

abbrev body : Tree → Tree
body (leaf n) = leaf 0
body (node a t) = t

abbrev text_tree : Text → Tree
text_tree [] = leaf 0
text_tree (c ∷ s) = node (leaf c) (text_tree s)

abbrev number : Tree → ℕ
number (leaf n) = n
number (node a b) = 0

abbrev tree_text : Tree → Text
tree_text (leaf n) = []
tree_text (node a t) = number a ∷ tree_text t

pub tree_text-text_tree : (s : Text) → tree_text (text_tree s) ≡ s
tree_text-text_tree [] = refl
tree_text-text_tree (c ∷ s) = ap (λ t. c ∷ t) (tree_text-text_tree s)

abbrev list_tree : List Tree → Tree
list_tree [] = leaf 0
list_tree (x ∷ xs) = node x (list_tree xs)

abbrev tree_list : Tree → List Tree
tree_list (leaf n) = []
tree_list (node a t) = a ∷ tree_list t

pub tree_list-list_tree : (xs : List Tree) → tree_list (list_tree xs) ≡ xs
tree_list-list_tree [] = refl
tree_list-list_tree (x ∷ xs) = ap (λ t. x ∷ t) (tree_list-list_tree xs)

abbrev left : Tree → Tree
left (leaf n) = leaf 0
left (node a b) = a

abbrev dict_tree : Dict Tree → Tree
dict_tree [] = leaf 0
dict_tree ((k, v) ∷ m) = node (node (text_tree k) v) (dict_tree m)

abbrev tree_dict : Tree → Dict Tree
tree_dict (leaf n) = []
tree_dict (node a t) = (tree_text (left a), body a) ∷ tree_dict t

pub tree_dict-dict_tree : (m : Dict Tree) → tree_dict (dict_tree m) ≡ m
tree_dict-dict_tree [] = refl
tree_dict-dict_tree ((k, v) ∷ m) = rw (tree_text-text_tree k, tree_dict-dict_tree m)

abbrev encode : Tree → Text
encode (leaf n) = 0 ∷ n ∷ []
encode (node a b) = encode a ++ (encode b ++ 1 ∷ [])

-- The trees that a dump leaves on a stack.
abbrev join_top : List Tree → List Tree
join_top [] = []
join_top (b ∷ []) = []
join_top (b ∷ a ∷ stack) = node a b ∷ stack

abbrev decode : Text → List Tree → List Tree
decode [] stack = stack
decode (zero ∷ []) stack = stack
decode (zero ∷ n ∷ s) stack = decode s (leaf n ∷ stack)
decode (suc c ∷ s) stack = decode s (join_top stack)

decode-encode :
    (t : Tree) (s : Text) (stack : List Tree) → decode (encode t ++ s) stack ≡ decode s (t ∷ stack)
decode-encode (leaf n) s stack = refl
decode-encode (node a b) s stack =
    ap (λ u. decode u stack) (append_assoc (encode a) (encode b ++ 1 ∷ []) s)
    ∙ (decode-encode a ((encode b ++ 1 ∷ []) ++ s) stack
        ∙ (ap (λ u. decode u (a ∷ stack)) (append_assoc (encode b) (1 ∷ []) s)
            ∙ decode-encode b (1 ∷ s) (a ∷ stack)))

abbrev top : List Tree → Outcome Tree
top [] = throws (codes "parse error")
top (t ∷ []) = ok t
top (t ∷ u ∷ stack) = throws (codes "out of range")

abbrev pub sample_parse : Text → Outcome Tree
sample_parse s = top (decode s [])

parse-encode : (t : Tree) → sample_parse (encode t) ≡ ok t
parse-encode t =
    ap (λ u. top (decode u [])) (sym (append-nil (encode t))) ∙ ap top (decode-encode t [] [])

abbrev as_boolean : Tree → Option Bool
as_boolean (leaf n) = if n == 1 then some false else if n == 2 then some true else none
as_boolean (node a b) = none

abbrev boolean : Bool → Tree
boolean false = leaf 1
boolean true = leaf 2

pub as_boolean-boolean : (b : Bool) → as_boolean (boolean b) ≡ some b
as_boolean-boolean true = refl
as_boolean-boolean false = refl

abbrev integer : Integer → Tree
integer (natural n) = node (leaf 1) (leaf n)
integer (negative n) = node (leaf 2) (leaf n)

abbrev as_integer : Tree → Option Integer
as_integer t =
    if tag t == 1
    then some (natural (number (body t)))
    else if tag t == 2
    then some (negative (number (body t)))
    else none

pub as_integer-integer : (n : Integer) → as_integer (integer n) ≡ some n
as_integer-integer (natural n) = refl
as_integer-integer (negative n) = refl

abbrev is_null : Tree → Bool
is_null (leaf n) = n == 0
is_null (node a b) = false

abbrev pub sample : Json
sample = record {
  Value = Tree;
  null = leaf 0;
  boolean = boolean;
  integer = integer;
  string = λ s. node (leaf 3) (text_tree s);
  array = λ xs. node (leaf 4) (list_tree xs);
  object = λ m. node (leaf 5) (dict_tree m);
  is_null = is_null;
  is_object = λ t. tag t == 5;
  is_array = λ t. tag t == 4;
  size = λ t. length (tree_list (body t));
  as_boolean = as_boolean;
  as_integer = as_integer;
  as_string = λ t. if tag t == 3 then some (tree_text (body t)) else none;
  elements = λ t. tree_list (body t);
  find = λ k t. if tag t == 5 then lookup k (tree_dict (body t)) else none;
  type_message = λ t. codes "type error";
  missing_message = λ k. codes "key not found";
  dump = encode;
  dump_indented = λ n. encode;
  parse = sample_parse;
  extract = sample_parse;
  is_parse_error = λ e. text_eq e (codes "parse error");
  is_printable = λ t. true;
  encoding_message = λ t. codes "invalid UTF-8 byte";
  is_null-null = refl;
  is_null-string = λ s. refl;
  is_null-array = λ xs. refl;
  is_object-object = λ m. refl;
  is_array-array = λ xs. refl;
  size-array = λ xs. ap length (tree_list-list_tree xs);
  as_boolean-boolean = as_boolean-boolean;
  as_integer-integer = as_integer-integer;
  as_string-string = λ s. ap some (tree_text-text_tree s);
  elements-array = tree_list-list_tree;
  find-object = λ k m. ap (lookup k) (tree_dict-dict_tree m);
}

pub sample-RoundTrips : RoundTrips sample
sample-RoundTrips = record {
  parse-dump = parse-encode;
  parse-dump_indented = λ n. parse-encode;
  extract-dump_indented = λ n. parse-encode;
}
