-- ===== src/Core/Message/RoundTrip.antt =====
-- `base64_encode` against a decoder written from RFC 4648.
use langchain_cpp.Base.{
  ℕ, zero, suc, ◌+◌, ◌-◌, ◌*◌, ◌/◌, ◌%◌, ◌<◌, ◌≡◌, refl, Bool, true, false, ◌&&◌, List, [], ◌∷◌,
  Option, none, some, arith, leb, ◌==◌, if◌then◌else◌, length, All,
}
use langchain_cpp.Base.Text.{Text}
use langchain_cpp.Core.Message.Base64.{table_at, base64_encode}

-- The value of a digit of the alphabet of RFC 4648, table 1.
sextet : ℕ → Option ℕ
sextet c =
    if leb b'A' c && leb c b'Z'
    then some (c - 65)
    else if leb b'a' c && leb c b'z'
    then some (c - 71)
    else if leb b'0' c && leb c b'9'
    then some (c + 4)
    else if c == b'+'
    then some 62
    else if c == b'/'
    then some 63
    else none

abbrev IsByte : ℕ → Type 0
IsByte b = b < 256

infixl 5 ◌>>=◌
abbrev ◌>>=◌ : {A B : Type 0} → Option A → (A → Option B) → Option B
none >>= f = none
some a >>= f = f a

-- A decoder of padded base64, group by group.
pub base64_decode : Text → Option (List ℕ)
base64_decode [] = some []
base64_decode (w ∷ x ∷ y ∷ z ∷ rest) =
    let whole = (do
      p ← sextet w
      q ← sextet x
      r ← sextet y
      s ← sextet z
      more ← base64_decode rest
      some ((p * 4 + q / 16) ∷ (q % 16 * 16 + r / 4) ∷ (r % 4 * 64 + s) ∷ more)) in
    if y == b'='
    then (do p ← sextet w; q ← sextet x; some ((p * 4 + q / 16) ∷ []))
    else if z == b'='
    then (do
      p ← sextet w
      q ← sextet x
      r ← sextet y
      some ((p * 4 + q / 16) ∷ (q % 16 * 16 + r / 4) ∷ []))
    else whole
base64_decode _ = none

-- The digit of a value below 64 has that value, and is not the padding.
is_digit_of : ℕ → Bool
is_digit_of n =
    elim (sextet (table_at n)) [ none ↦ false | some v ↦ v == n ]
    && elim (table_at n == b'=') [ true ↦ false | false ↦ true ]

-- Whether the digits of all the values below a number are as they should be.
are_digits : ℕ → Bool
are_digits zero = true
are_digits (suc v) = if is_digit_of v then are_digits v else false

is_digit_of_below : (v limit : ℕ) → v < limit → are_digits limit ≡ true → is_digit_of v ≡ true
unfolding are_digits
is_digit_of_below v (suc limit) below checked = ground (arith, is_digit_of_below v limit)
is_digit_of_below v zero below checked = ground arith

alphabet_checked : are_digits 64 ≡ true
unfolding are_digits is_digit_of sextet table_at
alphabet_checked = refl

digit_lem : (n : ℕ) → n < 64 → (sextet (table_at n) ≡ some n) × ((table_at n == b'=') ≡ false)
unfolding is_digit_of
digit_lem n h = ground (arith, is_digit_of_below n 64 h alphabet_checked)

table_at_mod : (n : ℕ) → table_at (n % 64) ≡ table_at n
unfolding table_at
table_at_mod n = let e : n % 64 % 64 ≡ n % 64 = omega arith in rw e

sextet-table_at : (n : ℕ) → sextet (table_at n) ≡ some (n % 64)
sextet-table_at n = rw table_at_mod at ((digit_lem (n % 64) (omega arith)).0)

table_at-ne : (n : ℕ) → (table_at n == b'=') ≡ false
table_at-ne n = rw table_at_mod at ((digit_lem (n % 64) (omega arith)).1)

module _ (n a b c : ℕ) (chunk : n ≡ a * 65536 + b * 256 + c) where
  first_byte : a < 256 → b < 256 → c < 256 → n / 262144 % 64 * 4 + n / 4096 % 64 / 16 ≡ a
  first_byte ha hb hc = omega arith

  second_byte : a < 256 → b < 256 → c < 256 → n / 4096 % 64 % 16 * 16 + n / 64 % 64 / 4 ≡ b
  second_byte ha hb hc = omega arith

  third_byte : a < 256 → b < 256 → c < 256 → n / 64 % 64 % 4 * 64 + n % 64 ≡ c
  third_byte ha hb hc = omega arith

-- Decoding what `base64_encode` writes gives the bytes back, for every sequence of bytes.
pub base64_decode-base64_encode :
    (bytes : List ℕ) → All IsByte bytes → base64_decode (base64_encode bytes) ≡ some bytes
unfolding base64_decode base64_encode
base64_decode-base64_encode [] h = refl
base64_decode-base64_encode (a ∷ []) h =
    simp sextet-table_at (ground (arith, first_byte (a * 65536) a 0 0 (omega arith)))
base64_decode-base64_encode (a ∷ b ∷ []) h =
    let n = a * 65536 + b * 256 in
    simp (table_at-ne, sextet-table_at)
      (ground (arith, first_byte n a b 0 (omega arith), second_byte n a b 0 (omega arith)))
base64_decode-base64_encode (a ∷ b ∷ c ∷ rest) h =
    let n = a * 65536 + b * 256 + c in
    simp (table_at-ne, sextet-table_at, base64_decode-base64_encode rest h.1.1.1)
      (ground (arith, first_byte n a b c refl, second_byte n a b c refl, third_byte n a b c refl))

-- The output is four characters for every three bytes, rounded up: what the source reserves.
pub length-base64_encode :
    (bytes : List ℕ) → length (base64_encode bytes) ≡ (length bytes + 2) / 3 * 4
unfolding base64_encode
length-base64_encode [] = omega arith
length-base64_encode (a ∷ []) = omega arith
length-base64_encode (a ∷ b ∷ []) = omega arith
length-base64_encode (a ∷ b ∷ c ∷ rest) = omega (arith, length-base64_encode rest)
