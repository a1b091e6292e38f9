-- ===== src/Util/Bytes.antt =====
-- The byte-slice helpers of monkutil/bytes.go and BigToBytes of monkutil/big.go.
pub mod Numbers
pub mod Pads
use thelonious.Base.{
  ℕ, zero, suc, ◌+◌, ◌-◌, ◌*◌, ◌/◌, ◌%◌, ◌^◌, ◌≤◌, ◌<◌, ◌≡◌, refl, sym, ap, ◌∙◌, arith, List, [],
  ◌∷◌, ◌++◌, length, length-append, All, All-append, append_assoc, ltb, leb, ◌==◌, if◌then◌else◌,
  Bool, true, false, replicate, length-replicate, take, drop, Bool-cases, inl, inr, ◌⊎◌, ==_iff,
  Outcome, ok, panic, slice, length-drop, length-take,
}
use thelonious.Util.Big.{
  IsByte, set_bytes, big_bytes, from_be, from_be-append, from_be-zeros, set_bytes-big_bytes,
  length-big_bytes,
}

-- `LeftPadBytes` and `RightPadBytes`: a slice longer than `l` is returned as it is.
unfoldable pub left_pad_bytes : List ℕ → ℕ → List ℕ
left_pad_bytes s l = if ltb l (length s) then s else replicate (l - length s) 0 ++ s

unfoldable pub right_pad_bytes : List ℕ → ℕ → List ℕ
right_pad_bytes s l = if ltb l (length s) then s else s ++ replicate (l - length s) 0

-- `Address`: 20 bytes, padded on the left or cut to the last 20.
unfoldable pub address : List ℕ → List ℕ
address s =
    if ltb (length s) 20
    then left_pad_bytes s 20
    else if ltb 20 (length s)
    then drop (length s - 20) s
    else s

-- `binary.Read` of a big-endian number of `k` bytes: too short an input leaves the variable at 0.
unfoldable pub binary_read : ℕ → List ℕ → ℕ
binary_read k d = if leb k (length d) then set_bytes (take k d) else 0

-- `binary.Write` of a big-endian number of `k` bytes.
unfoldable pub binary_write : ℕ → ℕ → List ℕ
binary_write zero n = []
binary_write (suc k) n = binary_write k (n / 256) ++ (n % 256 ∷ [])

unfoldable pub read_var_int : List ℕ → ℕ
read_var_int buff =
    if ltb 4 (length buff)
    then binary_read 8 (left_pad_bytes buff 8)
    else if ltb 2 (length buff)
    then binary_read 4 (left_pad_bytes buff 4)
    else if ltb 1 (length buff)
    then binary_read 2 (left_pad_bytes buff 2)
    else binary_read 1 buff

-- `NumberToBytes` of a number whose Go type has `width` bytes: its last `bits / 8` bytes.
unfoldable pub number_to_bytes : ℕ → ℕ → ℕ → Outcome (List ℕ)
number_to_bytes width num bits =
    let buf = binary_write width num in
    if ltb (length buf) (bits / 8) then panic else slice buf (length buf - bits / 8) (length buf)

-- `BytesToNumber`: `data[:len(b)]` is cut from eight zeros, and `b` is appended to that.
unfoldable pub bytes_to_number : List ℕ → Outcome ℕ
bytes_to_number b =
    if ltb 8 (length b) then panic else ok (binary_read 8 (replicate (length b) 0 ++ b))

unfoldable pub big_to_bytes : ℕ → ℕ → List ℕ
big_to_bytes num base =
    let bs = big_bytes num in
    if ltb (base / 8) (length bs) then bs else replicate (base / 8 - length bs) 0 ++ bs

-- `DeleteFromByteSlice`, over any decidable test of equality with the hash that goes.
unfoldable pub delete_from_byte_slice {ℓ} : {A : Type ℓ} → (A → Bool) → List A → List A
delete_from_byte_slice same [] = []
delete_from_byte_slice same (h ∷ s) = if same h then s else h ∷ delete_from_byte_slice same s
