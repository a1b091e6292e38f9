-- ===== src/Util/Bytes/Numbers.antt =====
-- The numbers that monkutil reads from bytes are the ones that were written.
use thelonious.Base.{
  inr, inl, Bool-cases, if◌then◌else◌, ◌==◌, ltb, ℕ, zero, suc, ◌-◌, ◌/◌, ◌%◌, ◌^◌, ◌≤◌, ◌<◌, ◌≡◌,
  refl, sym, ap, ◌∙◌, arith, List, [], ◌∷◌, ◌++◌, length, length-append, leb, true, replicate,
  length-replicate, ◌>>=◌, take, ok, panic, slice-drop, append-nil, take_all, take-append_ge,
}
use thelonious.Util.Big.{
  set_bytes, big_bytes, from_be, from_be-zeros, from_be-snoc, set_bytes-big_bytes, length-big_bytes,
}
use thelonious.Util.Bytes.{
  left_pad_bytes, binary_read, binary_write, read_var_int, number_to_bytes, bytes_to_number,
}

length-left_pad_bytes : (s : List ℕ) (l : ℕ) → length s ≤ l → length (left_pad_bytes s l) ≡ l
unfolding left_pad_bytes
length-left_pad_bytes s l h =
    ground (
      arith,
      length-append (replicate (l - length s) 0) s,
      length-replicate {A = ℕ} (l - length s) 0,
    )

set_bytes-left_pad_bytes : (s : List ℕ) (l : ℕ) → set_bytes (left_pad_bytes s l) ≡ set_bytes s
unfolding left_pad_bytes
set_bytes-left_pad_bytes s l = ground (arith, from_be-zeros (l - length s) s)

-- `binary.Read` of a padded number takes all of it.
binary_read-left_pad_bytes :
    (k : ℕ) (s : List ℕ) → length s ≤ k → binary_read k (left_pad_bytes s k) ≡ set_bytes s
unfolding binary_read
binary_read-left_pad_bytes k s h =
    let full : take k (left_pad_bytes s k) ≡ left_pad_bytes s k =
      take_all k _ (omega (arith, length-left_pad_bytes s k h)) in
    rw (full, set_bytes-left_pad_bytes) (ground (arith, length-left_pad_bytes s k h))

binary_read_one : (s : List ℕ) → length s ≤ 1 → binary_read 1 s ≡ set_bytes s
unfolding binary_read from_be
binary_read_one [] h = refl
binary_read_one (x ∷ []) h = refl
binary_read_one (x ∷ y ∷ s) h = absurd (omega arith)

-- On up to eight bytes ReadVarInt gives the big-endian number.
pub read_var_int_lem : (s : List ℕ) → length s ≤ 8 → read_var_int s ≡ set_bytes s
unfolding read_var_int
read_var_int_lem s h = ground (
  arith,
  binary_read-left_pad_bytes 8 s,
  binary_read-left_pad_bytes 4 s,
  binary_read-left_pad_bytes 2 s,
  binary_read_one s,
)

-- ReadVarInt reads back every uint64 that was written as the minimal big-endian bytes.
pub read_var_int-big_bytes : (n : ℕ) → n < 2 ^ 64 → read_var_int (big_bytes n) ≡ n
read_var_int-big_bytes n h =
    read_var_int_lem (big_bytes n) (length-big_bytes 8 n h) ∙ set_bytes-big_bytes n

pub length-binary_write : (k n : ℕ) → length (binary_write k n) ≡ k
unfolding binary_write
length-binary_write zero n = refl
length-binary_write (suc k) n = omega (
  arith,
  length-append (binary_write k (n / 256)) (n % 256 ∷ []),
  length-binary_write k (n / 256),
)

pub set_bytes-binary_write : (k n : ℕ) → n < 256 ^ k → set_bytes (binary_write k n) ≡ n
unfolding binary_write
set_bytes-binary_write zero n h = unfold from_be in omega arith
set_bytes-binary_write (suc k) n h =
    from_be-snoc 0 (binary_write k (n / 256)) (n % 256)
    ∙ omega (arith, set_bytes-binary_write k (n / 256) (omega arith))

-- Eight bytes of a number behind as many zeros as it has bytes.
module _ (b : List ℕ) (lo : 4 ≤ length b) (hi : length b ≤ 8) where
  zeros_long : length (replicate {A = ℕ} (length b) 0) ≡ length b
  zeros_long = length-replicate {A = ℕ} (length b) 0

  taken :
      take 8 (replicate {A = ℕ} (length b) 0 ++ b)
      ≡ replicate {A = ℕ} (length b) 0 ++ take (8 - length b) b
  taken =
      take-append_ge (replicate {A = ℕ} (length b) 0) b 8 (omega (arith, zeros_long))
      ∙ ap (λ (k : ℕ). replicate {A = ℕ} (length b) 0 ++ take (8 - k) b) zeros_long

  long_enough : leb 8 (length (replicate {A = ℕ} (length b) 0 ++ b)) ≡ true
  long_enough = ground (arith, zeros_long, length-append (replicate {A = ℕ} (length b) 0) b)

  padded_number : binary_read 8 (replicate (length b) 0 ++ b) ≡ set_bytes (take (8 - length b) b)
  unfolding binary_read
  padded_number = rw (long_enough, taken) (from_be-zeros (length b) (take (8 - length b) b))

short_number : (b : List ℕ) → length b < 4 → binary_read 8 (replicate (length b) 0 ++ b) ≡ 0
unfolding binary_read
short_number b h =
    ground (
      arith,
      length-replicate {A = ℕ} (length b) 0,
      length-append (replicate {A = ℕ} (length b) 0) b,
    )

bytes_to_number_parts :
    (b : List ℕ)
    → (length b < 4 → bytes_to_number b ≡ ok 0)
      × (length b ≡ 4 → bytes_to_number b ≡ ok (set_bytes b))
      × (4 < length b → length b ≤ 8 → bytes_to_number b ≡ ok (set_bytes (take (8 - length b) b)))
      × (8 < length b → bytes_to_number b ≡ panic)
unfolding bytes_to_number
bytes_to_number_parts b = (
  λ h. ground (arith, short_number b),
  λ h. ground (arith, padded_number b, take_all (8 - length b) b (omega arith)),
  λ lo hi. ground (arith, padded_number b),
  λ h. ground arith,
)

pub number_to_bytes_lem : (n : ℕ) → number_to_bytes 4 n 32 ≡ ok (binary_write 4 n)
unfolding number_to_bytes
number_to_bytes_lem n =
    let four = length-binary_write 4 n in
    rw four (
      slice-drop 0 4 (binary_write 4 n) (binary_write 4 n) [] (sym (append-nil _)) (omega arith)
        (omega (arith, four)))

-- BytesToNumber gives 0 on fewer than four bytes; on n from four to eight, the number that the first
-- 8 - n bytes make, which is all of them on four and none on eight; it panics on more.
bytes_to_number_cases :
    (b : List ℕ)
    → bytes_to_number b ≡ (
        if ltb (length b) 4
        then ok 0
        else if leb (length b) 8
        then ok (set_bytes (take (8 - length b) b))
        else panic)
bytes_to_number_cases b = elim (Bool-cases (ltb (length b) 4)) [
  | inl h ↦ rw h ((bytes_to_number_parts b).0 (ground arith))
  | inr h ↦ elim (Bool-cases (leb (length b) 8)) [
    | inr k ↦ rw h (rw k ((bytes_to_number_parts b).3 (ground arith)))
    | inl k ↦ elim (Bool-cases (length b == 4)) [
      | inl four ↦
          let n : length b ≡ 4 = ground arith in
          let whole : take (8 - length b) b ≡ b = take_all (8 - length b) b (omega arith) in
          rw h (rw k (rw whole ((bytes_to_number_parts b).1 n)))
      | inr more ↦ rw h (rw k ((bytes_to_number_parts b).2 (ground arith) (ground arith)))
    ]
  ]
]

-- A 32-bit number is read back from the four bytes that NumberToBytes wrote.
bytes_to_number-number_to_bytes :
    (n : ℕ) → n < 2 ^ 32 → (number_to_bytes 4 n 32 >>= bytes_to_number) ≡ ok n
bytes_to_number-number_to_bytes n h = rw number_to_bytes_lem (
    (bytes_to_number_parts (binary_write 4 n)).1 (length-binary_write 4 n)
    ∙ ap ok (set_bytes-binary_write 4 n h))
