-- ===== src/Tests/Trie.antt =====
-- The trie's keys at concrete inputs.
use thelonious.Base.{ℕ, ◌≡◌, refl, arith, List, [], ◌∷◌, ◌++◌, true, ok, panic, slice, ◌>>=◌}
use thelonious.Trie.Encoding.{compact_encode, compact_decode}
use thelonious.Trie.Encoding.RoundTrip.{terminator, compact_decode-compact_encode}

compact_encode_runs : compact_encode (1 ∷ 2 ∷ 3 ∷ 4 ∷ 5 ∷ []) ≡ ok (0x11 ∷ 0x23 ∷ 0x45 ∷ [])
unfolding compact_encode
compact_encode_runs = refl

compact_decode_runs :
    compact_decode (0x20 ∷ 0x0f ∷ 0x1c ∷ 0xb8 ∷ []) ≡ ok (0 ∷ 15 ∷ 1 ∷ 12 ∷ 11 ∷ 8 ∷ 16 ∷ [])
unfolding compact_decode slice
compact_decode_runs = refl

compact_encode_empty : compact_encode [] ≡ panic
unfolding compact_encode
compact_encode_empty = refl

compact_decode-compact_encode_example :
    (compact_encode ((1 ∷ 2 ∷ 3 ∷ []) ++ terminator true) >>= compact_decode)
    ≡ ok (1 ∷ 2 ∷ 3 ∷ 16 ∷ [])
compact_decode-compact_encode_example =
    compact_decode-compact_encode (1 ∷ 2 ∷ 3 ∷ []) true (omega arith) (λ e. cc)

abbrev long : List ℕ
long = 1 ∷ 2 ∷ []

abbrev short : List ℕ
short = 1 ∷ []
