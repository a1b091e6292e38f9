-- ===== src/Rlp/Encode.antt =====
-- `_Encode` of monkutil/rlp.go, with COMPRESS false, its default.
use thelonious.Base.{
  ℕ, ◌+◌, ◌-◌, ◌%◌, ◌^◌, List, [], ◌∷◌, ◌++◌, length, ltb, leb, if◌then◌else◌, Bool, false,
}
use thelonious.Base.Int.{ℤ, pos, negsuc, nat_abs}
use thelonious.Util.Big.{big_bytes}
use thelonious.Rlp.Values.{
  Value, Values, nil, ptr, int, uint, byte, big, big_nil, bytes, str, slice, other, empty, item,
}

-- `int64(t)` of an unsigned 64-bit number.
abbrev pub to_int64 : ℕ → ℤ
to_int64 n = if ltb n (2 ^ 63) then pos n else negsuc (2 ^ 64 - n - 1)

-- `len(t) == 1 && t[0] <= 0x7f`
abbrev pub is_direct : List ℕ → Bool
is_direct [] = false
is_direct (x ∷ []) = leb x 0x7f
is_direct (x ∷ y ∷ t) = false

-- A length behind one of two offsets: in the head itself, or as bytes that the head counts.
unfoldable pub write_length : ℕ → ℕ → ℕ → List ℕ
write_length short long n =
    let b = big_bytes n in if ltb n 56 then (n + short) % 256 ∷ [] else (length b + long) % 256 ∷ b

unfoldable pub encode_bytes : List ℕ → List ℕ
unfolding write_length
encode_bytes t = if is_direct t then t else write_length 0x80 0xb7 (length t) ++ t

unfoldable pub write_slice_header : ℕ → List ℕ
unfolding write_length
write_slice_header n = write_length 0xc0 0xf7 n

-- `*big.Int` is written as its magnitude's bytes: the sign is lost.
unfoldable pub encode_big : ℤ → List ℕ
unfolding encode_bytes
encode_big z = encode_bytes (big_bytes (nat_abs z))

unfoldable mutual
  pub encode : Value → List ℕ
  encode nil = 0xc0 ∷ []
  encode (ptr v) = encode v
  encode (int z) = encode_big z
  encode (uint n) = encode_big (to_int64 n)
  encode (byte n) = encode_big (pos n)
  encode (big z) = encode_big z
  encode big_nil = 0xc0 ∷ []
  encode (bytes t) = encode_bytes t
  encode (str t) = encode_bytes t
  encode (slice vs) = write_slice_header (length (encode_all vs)) ++ encode_all vs
  encode other = []

  pub encode_all : Values → List ℕ
  encode_all empty = []
  encode_all (item v vs) = encode v ++ encode_all vs
