-- ===== src/Util/Bytes/Pads.antt =====
-- Lengths and values of padded byte slices.
use thelonious.Base.{
  ℕ, ◌-◌, ◌/◌, ◌≡◌, arith, List, length, length-append, replicate, length-replicate, max,
  length-drop,
}
use thelonious.Util.Big.{set_bytes, big_bytes, from_be-zeros, set_bytes-big_bytes}
use thelonious.Util.Bytes.{left_pad_bytes, right_pad_bytes, address, big_to_bytes}

-- Padding gives the wanted length, or leaves a longer slice alone.
pub length-left_pad_bytes : (s : List ℕ) (l : ℕ) → length (left_pad_bytes s l) ≡ max l (length s)
unfolding left_pad_bytes
length-left_pad_bytes s l =
    ground (
      arith,
      length-append (replicate (l - length s) 0) s,
      length-replicate {A = ℕ} (l - length s) 0,
    )

pub length-right_pad_bytes : (s : List ℕ) (l : ℕ) → length (right_pad_bytes s l) ≡ max l (length s)
unfolding right_pad_bytes
length-right_pad_bytes s l =
    ground (
      arith,
      length-append s (replicate (l - length s) 0),
      length-replicate {A = ℕ} (l - length s) 0,
    )

-- An address has 20 bytes whatever it was made from.
pub length-address : (s : List ℕ) → length (address s) ≡ 20
unfolding address
length-address s = ground (arith, length-left_pad_bytes s 20, length-drop (length s - 20) s)

-- An address keeps its last bytes: it is the slice itself if that has 20, and what is padded in
-- front does not change the number that the bytes are.
address_of_twenty : (s : List ℕ) → length s ≡ 20 → address s ≡ s
unfolding address
address_of_twenty s h = ground arith

-- Making an address of an address changes nothing.
address-address : (s : List ℕ) → address (address s) ≡ address s
address-address s = address_of_twenty (address s) (length-address s)

-- BigToBytes keeps the number, in `base / 8` bytes or in as many as the number needs.
pub big_to_bytes_lem :
    (n base : ℕ)
    → (set_bytes (big_to_bytes n base) ≡ n)
      × (length (big_to_bytes n base) ≡ max (base / 8) (length (big_bytes n)))
unfolding big_to_bytes
big_to_bytes_lem n base = (
  ground
      (arith, set_bytes-big_bytes n, from_be-zeros (base / 8 - length (big_bytes n)) (big_bytes n)),
  ground (
    arith,
    length-append (replicate (base / 8 - length (big_bytes n)) 0) (big_bytes n),
    length-replicate {A = ℕ} (base / 8 - length (big_bytes n)) 0,
  ),
)
