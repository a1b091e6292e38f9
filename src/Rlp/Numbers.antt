-- ===== src/Rlp/Numbers.antt =====
-- Which numbers `_Encode` keeps apart: unsigned ones pass through int64.
use thelonious.Base.{inr, inl, Bool-cases, ◌⊎◌, leb, ℕ, ◌-◌, ◌^◌, ◌<◌, ◌≤◌, ◌≡◌, arith}
use thelonious.Base.Int.{pos, nat_abs}
use thelonious.Rlp.Values.{uint, big}
use thelonious.Rlp.Encode.{to_int64, encode, encode_big}

small_magnitude : (n : ℕ) → n ≤ 2 ^ 63 → nat_abs (to_int64 n) ≡ n
small_magnitude n h = ground arith

large_magnitude : (n : ℕ) → 2 ^ 63 < n → n < 2 ^ 64 → nat_abs (to_int64 n) ≡ 2 ^ 64 - n
large_magnitude n h k = ground arith

-- A uint64 up to 2 ^ 63 is encoded as the number that it is; one above is encoded like 2 ^ 64 - n,
-- so the two cannot be told apart.
encode_uint_cases :
    (n : ℕ)
    → n < 2 ^ 64
    → ((n ≤ 2 ^ 63) × (encode (uint n) ≡ encode (big (pos n))))
      ⊎ ((2 ^ 63 < n) × (encode (uint n) ≡ encode (uint (2 ^ 64 - n))))
unfolding encode encode_big
encode_uint_cases n h = elim (Bool-cases (leb n (2 ^ 63))) [
  | inl b ↦ let k : n ≤ 2 ^ 63 = ground arith in inl (k, rw (small_magnitude n k))
  | inr b ↦
      let k : 2 ^ 63 < n = ground arith in
      inr (k, rw (large_magnitude n k h, small_magnitude (2 ^ 64 - n) (omega arith)))
]
