-- ===== src/Tests/Crypto.antt =====
-- The key and the words of monkcrypto/mnemonic_test.go, and keys of other lengths.
use Prim.Native.String.{String}
use thelonious.Base.{ℕ, zero, suc, ◌≡◌, refl, List, [], ◌∷◌, replicate, All, ok, panic, arith}
use thelonious.Crypto.Mnemonic.{mnemonic_encode, mnemonic_decode}
use thelonious.Crypto.Mnemonic.Words.{mnemonic_words}
use thelonious.Crypto.Mnemonic.Digits.{IsDigit}
use thelonious.Crypto.Mnemonic.RoundTrip.{mnemonic_decode-mnemonic_encode}

abbrev key : List ℕ
key =
    99 ∷ 54 ∷ 49 ∷ 100 ∷ 52 ∷ 51 ∷ 100 ∷ 99 ∷ 53 ∷ 98 ∷ 98 ∷ 55 ∷ 97 ∷ 52 ∷ 101 ∷ 55 ∷ 53 ∷ 52 ∷ 100
    ∷ 49 ∷ 49 ∷ 49 ∷ 100 ∷ 97 ∷ 101 ∷ 56 ∷ 49 ∷ 48 ∷ 53 ∷ 98 ∷ 54 ∷ 102 ∷ 50 ∷ 53 ∷ 51 ∷ 53 ∷ 54
    ∷ 52 ∷ 57 ∷ 50 ∷ 100 ∷ 102 ∷ 53 ∷ 101 ∷ 53 ∷ 48 ∷ 101 ∷ 99 ∷ 98 ∷ 51 ∷ 51 ∷ 98 ∷ 56 ∷ 53 ∷ 56
    ∷ 100 ∷ 57 ∷ 52 ∷ 102 ∷ 56 ∷ 99 ∷ 51 ∷ 51 ∷ 56 ∷ []

abbrev key_words : List String
key_words =
    "ink" ∷ "balance" ∷ "gain" ∷ "fear" ∷ "happen" ∷ "melt" ∷ "mom" ∷ "surface" ∷ "stir" ∷ "bottle"
    ∷ "unseen" ∷ "expression" ∷ "important" ∷ "curl" ∷ "grant" ∷ "fairy" ∷ "across" ∷ "back"
    ∷ "figure" ∷ "breast" ∷ "nobody" ∷ "scratch" ∷ "worry" ∷ "yesterday" ∷ []

encodes : mnemonic_encode mnemonic_words key ≡ ok key_words
unfolding mnemonic_encode mnemonic_words
encodes = refl

decodes : mnemonic_decode mnemonic_words key_words ≡ ok key
unfolding mnemonic_decode mnemonic_words
decodes = refl

-- A key of 70 digits panics, and so does one of 7; of 128 digits a half is left out.
other_lengths :
    (mnemonic_encode mnemonic_words (replicate 70 48) ≡ panic)
    × (mnemonic_encode mnemonic_words (replicate 7 48) ≡ panic)
    × (mnemonic_encode mnemonic_words (replicate 128 48) ≡ ok (replicate 24 "like"))
unfolding mnemonic_encode mnemonic_words
other_lengths = (refl, refl, refl)

zeros-IsDigit : (n : ℕ) → All IsDigit (replicate n 48)
zeros-IsDigit zero = tt
zeros-IsDigit (suc n) = ((0, omega arith, refl), zeros-IsDigit n)

mnemonic_decode-mnemonic_encode_example :
    (ws : List String) × (mnemonic_encode mnemonic_words (replicate 64 48) ≡ ok ws)
    × (mnemonic_decode mnemonic_words ws ≡ ok (replicate 64 48))
mnemonic_decode-mnemonic_encode_example =
    mnemonic_decode-mnemonic_encode (replicate 64 48) (zeros-IsDigit 64) refl
