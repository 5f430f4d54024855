-- ===== src/Base/Json.antt =====
-- nlohmann::json, which is not part of the repository: a type of values with the constructors and
-- the readers that the source uses, and what the library documents of them. Every definition that
-- handles JSON takes such a record as a parameter. `object` is an initializer list of members, and
-- `array` is json::array(…); the readers return none where the library throws a type_error.
pub mod Sample
use Prim.Native.Nat.{ℕ}
use mathlib.Core.Path.{◌≡◌, ap}
use mathlib.Core.Bool.{Bool, true, false}
use mathlib.Core.List.{List, [], ◌∷◌}
use mathlib.Core.Option.{Option, none, some}
use langchain_cpp.Base.Lists.{length}
use langchain_cpp.Base.Dict.{Dict, lookup}
use langchain_cpp.Base.Outcome.{Outcome, ok, throws}
use langchain_cpp.Base.Text.{Text}
use langchain_cpp.Base.Tests.{◌==◌, if◌then◌else◌}

-- An int: `negative n` is -(n + 1).
pub data Integer : Type 0 where
  natural : ℕ → Integer
  negative : ℕ → Integer

pub record Json : Type 1 where
  pub Value : Type 0
  pub null : Value
  pub boolean : Bool → Value
  pub integer : Integer → Value
  pub string : Text → Value
  pub array : List Value → Value
  pub object : Dict Value → Value
  -- v.is_null(), v.is_object(), v.is_array(), v.size()
  pub is_null : Value → Bool
  pub is_object : Value → Bool
  pub is_array : Value → Bool
  pub size : Value → ℕ
  -- v.get<T>()
  pub as_boolean : Value → Option Bool
  pub as_integer : Value → Option Integer
  pub as_string : Value → Option Text
  -- the elements that `for (const auto& x : v)` walks
  pub elements : Value → List Value
  -- v.find(key), with v.contains(key)
  pub find : Text → Value → Option Value
  -- the messages of type_error and out_of_range
  pub type_message : Value → Text
  pub missing_message : Text → Text
  pub dump : Value → Text
  -- dump(indent)
  pub dump_indented : ℕ → Value → Text
  pub parse : Text → Outcome Value
  -- stream >> v, which reads one value and leaves what follows it
  pub extract : Text → Outcome Value
  -- Whether an exception is a parse_error, by its message, which starts with its class. parse throws
  -- out_of_range too, on a number that is too large.
  pub is_parse_error : Text → Bool
  -- Whether dump() returns: whether each string is valid UTF-8; and the message where it is not.
  pub is_printable : Value → Bool
  pub encoding_message : Value → Text
  pub is_null-null : is_null null ≡ true
  pub is_null-string : (s : Text) → is_null (string s) ≡ false
  pub is_null-array : (xs : List Value) → is_null (array xs) ≡ false
  pub is_object-object : (fs : Dict Value) → is_object (object fs) ≡ true
  pub is_array-array : (xs : List Value) → is_array (array xs) ≡ true
  pub size-array : (xs : List Value) → size (array xs) ≡ length xs
  pub as_boolean-boolean : (b : Bool) → as_boolean (boolean b) ≡ some b
  pub as_integer-integer : (n : Integer) → as_integer (integer n) ≡ some n
  pub as_string-string : (s : Text) → as_string (string s) ≡ some s
  pub elements-array : (xs : List Value) → elements (array xs) ≡ xs
  pub find-object : (k : Text) (fs : Dict Value) → find k (object fs) ≡ lookup k fs

-- What is written is read back. Values hold valid UTF-8 and no NaN, or dump throws or loses them.
pub record RoundTrips (J : Json) : Type 0 where
  pub parse-dump : (v : J.Value) → J.parse (J.dump v) ≡ ok v
  pub parse-dump_indented : (n : ℕ) (v : J.Value) → J.parse (J.dump_indented n v) ≡ ok v
  pub extract-dump_indented : (n : ℕ) (v : J.Value) → J.extract (J.dump_indented n v) ≡ ok v

pub dump_injective : (J : Json) → RoundTrips J → (v w : J.Value) → J.dump v ≡ J.dump w → v ≡ w
dump_injective J r v w e = cc (r.parse-dump v, r.parse-dump w, ap J.parse e)

-- Whether there is a value.
abbrev pub is_some {ℓ} : {A : Type ℓ} → Option A → Bool
is_some none = false
is_some (some a) = true

-- operator== on int
abbrev pub integer_eq : Integer → Integer → Bool
integer_eq (natural a) (natural b) = a == b
integer_eq (negative a) (negative b) = a == b
integer_eq _ _ = false

module _ (J : Json) where
  open J use {
    Value, as_boolean, as_integer, as_string, is_object, find, string, boolean, integer,
    type_message, missing_message, is_array, elements,
  }

  -- v.dump(), where a string that is not valid UTF-8 counts
  abbrev pub printed : Value → Outcome Text
  printed v = if J.is_printable v then ok (J.dump v) else throws (J.encoding_message v)

  -- v.contains(k)
  abbrev pub contains : Text → Value → Bool
  contains k v = is_some (find k v)

  abbrev pub or_type_error {ℓ} : {A : Type ℓ} → Value → Option A → Outcome A
  or_type_error v none = throws (type_message v)
  or_type_error v (some a) = ok a

  -- v.get<std::string>(), v.get<int>(), v.get<bool>()
  abbrev pub get_string : Value → Outcome Text
  get_string v = or_type_error v (as_string v)

  abbrev pub get_integer : Value → Outcome Integer
  get_integer v = or_type_error v (as_integer v)

  abbrev pub get_boolean : Value → Outcome Bool
  get_boolean v = or_type_error v (as_boolean v)

  abbrev or_missing : Text → Option Value → Outcome Value
  or_missing k none = throws (missing_message k)
  or_missing k (some x) = ok x

  -- v.at(k), and v[k] where the source relies on the member being there
  abbrev pub at : Text → Value → Outcome Value
  at k v = if is_object v then or_missing k (find k v) else throws (type_message v)

  abbrev or_else : Option Value → Value → Value
  or_else none d = d
  or_else (some x) d = x

  -- v.value(k, d)
  abbrev pub value : Text → Value → Value → Outcome Value
  value k v d = if is_object v then ok (or_else (find k v) d) else throws (type_message v)

  abbrev string_or : Option Value → Text → Outcome Text
  string_or none d = ok d
  string_or (some x) d = get_string x

  -- v.value(k, "…")
  abbrev pub value_string : Text → Value → Text → Outcome Text
  value_string k v d = if is_object v then string_or (find k v) d else throws (type_message v)

  abbrev boolean_or : Option Value → Bool → Outcome Bool
  boolean_or none d = ok d
  boolean_or (some x) d = get_boolean x

  -- v.value(k, false)
  abbrev pub value_boolean : Text → Value → Bool → Outcome Bool
  value_boolean k v d = if is_object v then boolean_or (find k v) d else throws (type_message v)

  abbrev integer_or : Option Value → Integer → Outcome Integer
  integer_or none d = ok d
  integer_or (some x) d = get_integer x

  -- v.value(k, 0)
  abbrev pub value_integer : Text → Value → Integer → Outcome Integer
  value_integer k v d = if is_object v then integer_or (find k v) d else throws (type_message v)

  -- v.is_string()
  abbrev pub is_string : Value → Bool
  is_string v = is_some (as_string v)

  abbrev first : Value → List Value → Outcome Value
  first v [] = throws (type_message v)
  first v (x ∷ xs) = ok x

  -- v[0], where v is not empty
  abbrev pub front : Value → Outcome Value
  front v = if is_array v then first v (elements v) else throws (type_message v)
