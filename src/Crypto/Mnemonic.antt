-- ===== src/Crypto/Mnemonic.antt =====
-- monkcrypto/mnemonic.go: a message of hexadecimal digits as words, three for eight digits. A message
-- is the list of its bytes; the functions take the table of the words.
pub mod Words
pub mod Distinct
pub mod Numbers
pub mod Digits
pub mod RoundTrip
use Prim.Native.String.{String}
use text.Mathlib.Text.{◌==◌ as ◌=s◌}
use thelonious.Base.{
  ℕ, zero, suc, ◌+◌, ◌-◌, ◌*◌, ◌/◌, ◌%◌, ◌^◌, List, [], ◌∷◌, ◌++◌, length, index, slice,
  if◌then◌else◌, Bool, true, false, ltb, leb, ◌==◌, ◌&&◌, Option, none, some, Outcome, ok, panic,
  out_of_fuel, ◌>>=◌,
}
use thelonious.Base.Int.{ℤ, pos, negsuc, ◌+ℤ◌, ◌-ℤ◌, ◌*ℤ◌, sub_ℕ, ltb_ℤ}

unfoldable pub index_from : ℕ → List String → String → ℤ
index_from p [] value = negsuc 0
index_from p (v ∷ vs) value =
    let rest = index_from (suc p) vs value in if v =s value then pos p else rest

unfoldable pub index_of : List String → String → ℤ
unfolding index_from
index_of words value = index_from 0 words value

-- Digits and letters of either case.
unfoldable pub digit_value : ℕ → Option ℕ
digit_value c =
    if leb 48 c && leb c 57
    then some (c - 48)
    else if leb 97 c && leb c 102
    then some (c - 87)
    else if leb 65 c && leb c 70
    then some (c - 55)
    else none

unfoldable pub digits_value : ℕ → List ℕ → Option ℕ
unfolding digit_value
digits_value acc [] = some acc
digits_value acc (c ∷ cs) = elim (digit_value c) [
  | none ↦ none
  | some v ↦ digits_value (acc * 16 + v) cs
]

-- What is not a number is read as 0, since the error is not looked at.
abbrev pub or_zero : Option ℕ → ℕ
or_zero none = 0
or_zero (some n) = n

unfoldable pub magnitude : List ℕ → ℕ
unfolding digits_value
magnitude [] = 0
magnitude (c ∷ cs) = or_zero (digits_value 0 (c ∷ cs))

-- `strconv.ParseInt(x, 16, 64)`, which takes a sign. A number below 0 has a remainder or a quotient that
-- is below 0, at which the table is read.
unfoldable pub parse_group : List ℕ → Outcome ℕ
unfolding magnitude
parse_group [] = ok 0
parse_group (c ∷ cs) =
    if c == 43
    then ok (magnitude cs)
    else if c == 45
    then (if magnitude cs == 0 then ok 0 else panic)
    else ok (magnitude (c ∷ cs))

unfoldable pub words_of : List String → ℕ → Outcome (List String)
words_of words bit =
    let n = length words in
    let w1 = bit % n in
    let w2 = (bit / n + w1) % n in
    let w3 = (bit / n / n + w2) % n in
    index words w1 >>= λ a. index words w2 >>= λ b. index words w3 >>= λ c. ok (a ∷ b ∷ c ∷ [])

-- The loop from `i` on, which goes an eighth of the message at a time.
unfoldable pub encode_from : List String → ℕ → ℕ → ℕ → List ℕ → Outcome (List String)
unfolding slice parse_group words_of
encode_from words zero step i message = out_of_fuel
encode_from words (suc fuel) step i message =
    let rest = encode_from words fuel step (i + step) message in
    if ltb i (length message)
    then (slice message i (i + 8) >>= λ x.
        parse_group x >>= λ bit. words_of words bit >>= λ ws. rest >>= λ out. ok (ws ++ out))
    else ok []

unfoldable pub mnemonic_encode : List String → List ℕ → Outcome (List String)
unfolding encode_from
mnemonic_encode words message =
    encode_from words (suc (length message)) (length message / 8) 0 message

-- Go's `%`, whose result has the sign of the number.
unfoldable pub rem : ℤ → ℕ → ℤ
rem (pos a) n = pos (a % n)
rem (negsuc a) n = sub_ℕ 0 (suc a % n)

unfoldable pub place_behind : ℕ → ℤ → ℤ → ℤ
unfolding rem ◌+ℤ◌ ◌-ℤ◌
place_behind n w2 w1 = let y = rem (w2 -ℤ w1) n in if ltb_ℤ y (pos 0) then y +ℤ pos n else y

unfoldable pub number_of : List String → String → String → String → ℤ
unfolding index_of place_behind ◌+ℤ◌ ◌*ℤ◌
number_of words word1 word2 word3 =
    let n = length words in
    let w1 = index_of words word1 in
    let w2 = index_of words word2 in
    let w3 = index_of words word3 in
    w1 +ℤ pos n *ℤ place_behind n w2 w1 +ℤ pos (n * n) *ℤ place_behind n w3 w2

abbrev pub digit_char : ℕ → ℕ
digit_char d = if ltb d 10 then d + 48 else d + 87

unfoldable pub print_digits : ℕ → ℕ → List ℕ
print_digits zero x = []
print_digits (suc k) x = print_digits k (x / 16) ++ (digit_char (x % 16) ∷ [])

-- `fmt.Sprintf("%08x", x)`; no number that the words give has more than nine digits, and the only one
-- below 0 is -1, whose sign takes the place of a digit.
unfoldable pub print_number : ℤ → List ℕ
unfolding print_digits
print_number (pos x) = if ltb x (2 ^ 32) then print_digits 8 x else print_digits 9 x
print_number (negsuc x) = 45 ∷ print_digits 7 (suc x)

unfoldable pub mnemonic_decode : List String → List String → Outcome (List ℕ)
unfolding number_of print_number
mnemonic_decode words [] = ok []
mnemonic_decode words (word1 ∷ []) = panic
mnemonic_decode words (word1 ∷ word2 ∷ []) = panic
mnemonic_decode words (word1 ∷ word2 ∷ word3 ∷ wordsar) = mnemonic_decode words wordsar >>= λ out.
    ok (print_number (number_of words word1 word2 word3) ++ out)
