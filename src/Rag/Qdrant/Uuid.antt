-- ===== src/Rag/Qdrant/Uuid.antt =====
-- The form of a generated UUID.
use langchain_cpp.Base.{
  ℕ, suc, ◌+◌, ◌/◌, ◌%◌, ◌<◌, ◌≡◌, refl, ◌∙◌, Bool, true, false, ◌&&◌, ◌||◌, List, [], ◌∷◌, ◌++◌,
  ◌==◌, leb, if◌then◌else◌, All, length, arith, Bool-cases, inl, inr, ap, sym,
}
use langchain_cpp.Base.Text.{Text, codes}
use langchain_cpp.Rag.Similarity.{iota}
use langchain_cpp.Rag.Qdrant.{hex_digit, hex_byte, hex_bytes, set_version, generate_uuid_v4}

-- a digit or one of a to f
abbrev pub is_hex : ℕ → Bool
is_hex c = leb b'0' c && leb c b'9' || leb b'a' c && leb c b'f'

-- RFC 4122: in the pattern, x is any hexadecimal digit, y is 8, 9, a or b, and any other is itself.
abbrev pub fits : ℕ → ℕ → Bool
fits p c =
    if p == b'x'
    then is_hex c
    else if p == b'y'
    then c == b'8' || c == b'9' || c == b'a' || c == b'b'
    else p == c

abbrev pub matches : Text → Text → Bool
matches [] [] = true
matches (p ∷ ps) (c ∷ cs) = fits p c && matches ps cs
matches _ _ = false

hex_digit-is_hex : (d : ℕ) → d < 16 → is_hex (hex_digit d) ≡ true
hex_digit-is_hex d h = ground (arith, h)

byte_fits :
    (b : ℕ) (ps s : Text)
    → b < 256
    → matches ps s ≡ true
    → matches (b'x' ∷ b'x' ∷ ps) (hex_byte b ++ s) ≡ true
unfolding hex_byte
byte_fits b ps s h m =
    rw (hex_digit-is_hex (b / 16) (omega (arith, h)), hex_digit-is_hex (b % 16) (omega (arith)), m)
      refl

version_fits :
    (b : ℕ) (ps s : Text)
    → matches ps s ≡ true
    → matches (b'4' ∷ b'x' ∷ ps) (hex_byte (b % 16 + 64) ++ s) ≡ true
unfolding hex_byte
version_fits b ps s m =
    let high : (b % 16 + 64) / 16 ≡ 4 = omega arith in
    rw (high, hex_digit-is_hex ((b % 16 + 64) % 16) (omega arith), m) refl

variant_digit : (d : ℕ) → d < 4 → fits b'y' (hex_digit (d + 8)) ≡ true
variant_digit d h = ground (arith, h)

variant_fits :
    (b : ℕ) (ps s : Text)
    → matches ps s ≡ true
    → matches (b'y' ∷ b'x' ∷ ps) (hex_byte (b % 64 + 128) ++ s) ≡ true
unfolding hex_byte
variant_fits b ps s m =
    let high : (b % 64 + 128) / 16 ≡ (b % 64) / 16 + 8 = omega arith in
    rw
      (
        high,
        variant_digit ((b % 64) / 16) (omega arith),
        hex_digit-is_hex ((b % 64 + 128) % 16) (omega arith),
        m,
      )
      refl

-- The pattern's part for the byte `i`, and what follows it.
abbrev pair_pattern : ℕ → Text → Text
pair_pattern i ps =
    if i == 6 then b'4' ∷ b'x' ∷ ps else if i == 8 then b'y' ∷ b'x' ∷ ps else b'x' ∷ b'x' ∷ ps

abbrev has_dash : ℕ → Bool
has_dash i = i == 4 || i == 6 || i == 8 || i == 10

abbrev with_dash : ℕ → Text → Text
with_dash i ps = if has_dash i then b'-' ∷ ps else ps

abbrev pattern_from : ℕ → List ℕ → Text
pattern_from i [] = []
pattern_from i (b ∷ bytes) = with_dash i (pair_pattern i (pattern_from (suc i) bytes))

dash_fits :
    (t : Bool) (ps cs : Text)
    → matches ps cs ≡ true
    → matches (if t then b'-' ∷ ps else ps) (if t then b'-' ∷ cs else cs) ≡ true
dash_fits true ps cs h = h
dash_fits false ps cs h = h

pair_fits :
    (i b : ℕ) (ps s : Text)
    → b < 256
    → matches ps s ≡ true
    → matches
        (pair_pattern i ps)
        (hex_byte (if i == 6 then b % 16 + 64 else if i == 8 then b % 64 + 128 else b) ++ s)
      ≡ true
pair_fits i b ps s h m = elim (Bool-cases (i == 6)) [
  | inl e ↦ rw e (version_fits b ps s m)
  | inr e ↦ elim (Bool-cases (i == 8)) [
    | inl d ↦ rw (e, d) (variant_fits b ps s m)
    | inr d ↦ rw (e, d) (byte_fits b ps s h m)
  ]
]

hex_bytes_fit :
    (i : ℕ) (bytes : List ℕ)
    → All (λ b. b < 256) bytes
    → matches (pattern_from i bytes) (hex_bytes i (set_version i bytes)) ≡ true
unfolding hex_bytes set_version
hex_bytes_fit i [] h = refl
hex_bytes_fit i (b ∷ bytes) h =
    let marked = if i == 6 then b % 16 + 64 else if i == 8 then b % 64 + 128 else b in
    dash_fits (has_dash i) (pair_pattern i (pattern_from (suc i) bytes))
      (hex_byte marked ++ hex_bytes (suc i) (set_version (suc i) bytes))
      (pair_fits i b (pattern_from (suc i) bytes) (hex_bytes (suc i) (set_version (suc i) bytes))
        h.0 (hex_bytes_fit (suc i) bytes h.1))

-- Only the number of the bytes matters to the pattern.
pattern_length :
    (i : ℕ) (xs ys : List ℕ) → length xs ≡ length ys → pattern_from i xs ≡ pattern_from i ys
pattern_length i [] [] e = refl
pattern_length i [] (y ∷ ys) e = ground arith
pattern_length i (x ∷ xs) [] e = ground arith
pattern_length i (x ∷ xs) (y ∷ ys) e =
    ap (λ ps. with_dash i (pair_pattern i ps)) (pattern_length (suc i) xs ys (omega (arith, e)))

-- Whatever sixteen bytes the engine gives, the id is a UUID of version 4 in the form of RFC 4122.
pub generate_uuid_v4-matches :
    (bytes : List ℕ)
    → All (λ b. b < 256) bytes
    → length bytes ≡ 16
    → matches (codes "xxxxxxxx-xxxx-4xxx-yxxx-xxxxxxxxxxxx") (generate_uuid_v4 bytes) ≡ true
unfolding generate_uuid_v4
generate_uuid_v4-matches bytes h e =
    ap (λ ps. matches ps (generate_uuid_v4 bytes)) (sym (pattern_length 0 bytes (iota 0 16) e))
    ∙ hex_bytes_fit 0 bytes h
