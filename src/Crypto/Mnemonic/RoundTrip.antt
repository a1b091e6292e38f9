-- ===== src/Crypto/Mnemonic/RoundTrip.antt =====
-- monkcrypto/mnemonic.go: a key that is written down in words and read back.
use Prim.Native.String.{String}
use native.Mathlib.Nat.{mod-lt}
use thelonious.Base.{
  ℕ, zero, suc, ◌+◌, ◌*◌, ◌/◌, ◌%◌, ◌^◌, ◌<◌, ◌≤◌, ◌≡◌, refl, sym, ap, ◌∙◌, List, [], ◌∷◌, ◌++◌,
  length, take, drop, get_elem?, All, index, slice, slice-drop, take-append-drop, length-take,
  length-drop, drop-past, true, false, ltb, some, ok, arith,
}
use mathlib.Core.Path.{subst}
use thelonious.Base.Int.{pos}
use thelonious.Crypto.Mnemonic.{
  index_of, words_of, encode_from, mnemonic_encode, number_of, print_digits, print_number,
  mnemonic_decode,
}
use thelonious.Crypto.Mnemonic.Words.{mnemonic_words}
use thelonious.Crypto.Mnemonic.Distinct.{index_of-word}
use thelonious.Crypto.Mnemonic.Numbers.{number_back}
use thelonious.Crypto.Mnemonic.Digits.{IsDigit, parse_group-print_digits}

get_elem?-below :
    {A : Type 0} (xs : List A) (i : ℕ) → i < length xs → (x : A) × (get_elem? xs i ≡ some x)
get_elem?-below [] i lt = absurd (omega arith)
get_elem?-below (x ∷ xs) zero lt = (x, refl)
get_elem?-below (x ∷ xs) (suc i) lt = get_elem?-below xs i (omega arith)

drop-length : {A : Type 0} (xs : List A) → drop (length xs) xs ≡ []
drop-length [] = refl
drop-length (x ∷ xs) = drop-length xs

All-split : (xs ys : List ℕ) → All IsDigit (xs ++ ys) → All IsDigit xs × All IsDigit ys
All-split [] ys h = (tt, h)
All-split (x ∷ xs) ys (h, hs) = let (f, g) = All-split xs ys hs in ((h, f), g)

positive : (n : ℕ) → 2 ^ 32 ≤ n * n * n → 0 < n
positive zero h = absurd (omega arith)
positive (suc n) h = omega arith

print_small : (x : ℕ) → x < 2 ^ 32 → print_number (pos x) ≡ print_digits 8 x
unfolding print_number
print_small x lt = let e : ltb x (2 ^ 32) ≡ true = ground arith in rw e refl

table_enough : 2 ^ 32 ≤ length mnemonic_words * length mnemonic_words * length mnemonic_words
unfolding mnemonic_words
table_enough = omega arith

-- A table in which each word is found at its place, and which is large enough for eight digits.
module _ (words : List String)
    (found : (i : ℕ) (w : String) → get_elem? words i ≡ some w → index_of words w ≡ pos i)
    (enough : 2 ^ 32 ≤ length words * length words * length words) where
  -- The three words of a number, which give it back.
  three_words :
      (bit : ℕ)
      → bit < 2 ^ 32
      → (a b c : String) × (words_of words bit ≡ ok (a ∷ b ∷ c ∷ []))
        × (number_of words a b c ≡ pos bit)
  unfolding words_of number_of
  three_words bit lt =
      let n = length words in
      let lo : 0 < n = positive n enough in
      let (a, e) = get_elem?-below words (bit % n) (mod-lt bit lo) in
      let (b, f) =
        get_elem?-below words ((bit / n + bit % n) % n) (mod-lt (bit / n + bit % n) lo) in
      let (c, g) =
        get_elem?-below words ((bit / n / n + (bit / n + bit % n) % n) % n)
          (mod-lt (bit / n / n + (bit / n + bit % n) % n) lo) in
      (
        a,
        b,
        c,
        rw (e, index) (rw (f, index) (rw (g, index) refl)),
        rw
            (
              found (bit % n) a e,
              found ((bit / n + bit % n) % n) b f,
              found ((bit / n / n + (bit / n + bit % n) % n) % n) c g,
            )
            (number_back n bit lo (omega (arith, enough))),
      )

  -- What the loop makes of the rest of the message decodes to it.
  encode_from-decode :
      (r fuel i : ℕ) (message : List ℕ)
      → All IsDigit (drop i message)
      → i + 8 * r ≡ length message
      → r < fuel
      → (ws : List String) × (encode_from words fuel 8 i message ≡ ok ws)
        × (mnemonic_decode words ws ≡ ok (drop i message))
  unfolding encode_from mnemonic_decode
  encode_from-decode r zero i message h e lt = absurd (omega arith)
  encode_from-decode zero (suc fuel) i message h e lt =
      let same : i ≡ length message = omega arith in
      let stop : ltb i (length message) ≡ false = ground arith in
      ([], rw stop refl, ap ok (sym (ap (λ j. drop j message) same ∙ drop-length message)))
  encode_from-decode (suc r) (suc fuel) i message h e lt =
      let go : ltb i (length message) ≡ true = ground arith in
      let front = take 8 (drop i message) in
      let rest = drop 8 (drop i message) in
      let parts : front ++ rest ≡ drop i message = take-append-drop 8 (drop i message) in
      let long : length front ≡ 8 =
        omega (arith, length-take 8 (drop i message), length-drop i message) in
      let (hf, hr) = All-split front rest (subst (All IsDigit) (sym parts) h) in
      let next : drop (i + 8) message ≡ rest =
        ap (λ l. drop (i + l) message) (sym long) ∙ drop-past i message front (sym parts) in
      let (x, p, small, q) = parse_group-print_digits front hf long in
      let (a, b, c, w, d) = three_words x small in
      let (ws, u, v) =
        encode_from-decode r fuel (i + 8) message (subst (All IsDigit) (sym next) hr) (omega arith)
          (omega arith) in
      let cut : slice message i (i + 8) ≡ ok front =
        slice-drop i (i + 8) message front rest (sym parts) (omega arith) (omega arith) in
      (
        a ∷ b ∷ c ∷ ws,
        rw go (rw (cut, p, w, u) refl),
        rw (v, mnemonic_decode)
            (ap ok (
              ap (λ l. l ++ drop (i + 8) message) (ap print_number d ∙ print_small x small ∙ q)
              ∙ ap (λ l. front ++ l) next
              ∙ parts)),
      )

-- MnemonicEncode turns a message of 64 lower-case hexadecimal digits into words of the table
-- without a panic, and MnemonicDecode turns the words back into the message.
pub mnemonic_decode-mnemonic_encode :
    (message : List ℕ)
    → All IsDigit message
    → length message ≡ 64
    → (ws : List String) × (mnemonic_encode mnemonic_words message ≡ ok ws)
      × (mnemonic_decode mnemonic_words ws ≡ ok message)
unfolding mnemonic_encode
mnemonic_decode-mnemonic_encode message h e =
    let eighth : length message / 8 ≡ 8 = ap (λ l. l / 8) e in
    let (ws, f, g) =
      encode_from-decode mnemonic_words index_of-word table_enough 8 (suc (length message)) 0
        message h (omega arith) (omega arith) in
    (ws, ap (λ s. encode_from mnemonic_words (suc (length message)) s 0 message) eighth ∙ f, g)
