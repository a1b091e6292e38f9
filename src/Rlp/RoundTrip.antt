-- ===== src/Rlp/RoundTrip.antt =====
-- What `_Encode` writes, `_Decode` reads back.
use thelonious.Base.{
  ℕ, zero, suc, ◌+◌, ◌*◌, ◌^◌, ◌<◌, ◌≤◌, ◌≡◌, ap, ◌∙◌, arith, List, [], ◌∷◌, ◌++◌, length, Bool,
  true, false, ◌&&◌, ok, drop, drop-append_length, length-drop, length-append, append_assoc,
  append-nil, drop-past,
}
use thelonious.Base.Int.{nat_abs}
use thelonious.Util.Big.{big_bytes}
use thelonious.Rlp.Values.{
  Value, Values, nil, ptr, int, uint, byte, big, big_nil, bytes, str, slice, other, empty, item,
}
use thelonious.Rlp.Encode.{
  to_int64, write_length, encode_bytes, write_slice_header, encode_big, encode, encode_all,
}
use thelonious.Rlp.Decode.{add64, sub64, decode_at, decode_items, decode}
use thelonious.Rlp.Heads.{decoded_bytes, decode_at-encode_bytes, decode_at-write_slice_header}

-- The value that `_Decode` gives back: numbers and texts as byte slices (a byte where the encoding
-- is the byte itself), nil and a nil *big.Int as the empty list.
unfoldable mutual
  pub decoded : Value → Value
  decoded nil = slice empty
  decoded (ptr v) = decoded v
  decoded (int z) = decoded_bytes (big_bytes (nat_abs z))
  decoded (uint n) = decoded_bytes (big_bytes (nat_abs (to_int64 n)))
  decoded (byte n) = decoded_bytes (big_bytes n)
  decoded (big z) = decoded_bytes (big_bytes (nat_abs z))
  decoded big_nil = slice empty
  decoded (bytes t) = decoded_bytes t
  decoded (str t) = decoded_bytes t
  decoded (slice vs) = slice (decoded_all vs)
  decoded other = other

  pub decoded_all : Values → Values
  decoded_all empty = empty
  decoded_all (item v vs) = item (decoded v) (decoded_all vs)

-- No part of the value has a type that `_Encode` does not name.
unfoldable mutual
  pub is_encodable : Value → Bool
  is_encodable (ptr v) = is_encodable v
  is_encodable (slice vs) = are_encodable vs
  is_encodable other = false
  is_encodable _ = true

  pub are_encodable : Values → Bool
  are_encodable empty = true
  are_encodable (item v vs) = is_encodable v && are_encodable vs

encode_bytes_pos : (t : List ℕ) → 1 ≤ length (encode_bytes t)
unfolding encode_bytes write_length
encode_bytes_pos [] = ground arith
encode_bytes_pos (x ∷ []) = ground arith
encode_bytes_pos (x ∷ y ∷ t) = ground arith

write_slice_header_pos : (n : ℕ) (t : List ℕ) → 1 ≤ length (write_slice_header n ++ t)
unfolding write_slice_header write_length
write_slice_header_pos n t = ground arith

pub encode_pos : (v : Value) → is_encodable v ≡ true → 1 ≤ length (encode v)
unfolding encode is_encodable encode_big
encode_pos nil h = omega arith
encode_pos (ptr v) h = encode_pos v h
encode_pos (int z) h = encode_bytes_pos (big_bytes (nat_abs z))
encode_pos (uint n) h = encode_bytes_pos (big_bytes (nat_abs (to_int64 n)))
encode_pos (byte n) h = encode_bytes_pos (big_bytes n)
encode_pos (big z) h = encode_bytes_pos (big_bytes (nat_abs z))
encode_pos big_nil h = omega arith
encode_pos (bytes t) h = encode_bytes_pos t
encode_pos (str t) h = encode_bytes_pos t
encode_pos (slice vs) h = write_slice_header_pos (length (encode_all vs)) (encode_all vs)
encode_pos other h = cc

-- The loop ends where the items' bytes are used up, and goes on behind each item.
decode_items_done :
    (f len : ℕ) (input : List ℕ) (p i b : ℕ)
    → b ≤ i
    → decode_items (suc f) len input p i b ≡ ok (empty, p)
unfolding decode_items
decode_items_done f len input p i b h = ground arith

decode_items_more :
    (f len : ℕ) (input : List ℕ) (p i b q j : ℕ) {v : Value} {vs : Values} {r : ℕ}
    → i < b
    → decode_at f len input p ≡ ok (v, q)
    → add64 i (sub64 q p) ≡ j
    → decode_items f len input q j b ≡ ok (vs, r)
    → decode_items (suc f) len input p i b ≡ ok (item v vs, r)
unfolding decode_items
decode_items_more f len input p i b q j h e a k = ground arith

pub advance : (i p n : ℕ) → p < 2 ^ 63 → i + n < 2 ^ 63 → add64 i (sub64 (p + n) p) ≡ i + n
unfolding add64 sub64
advance i p n hp hn = omega arith

empty_list :
    (f len : ℕ) (input : List ℕ) (p : ℕ) (rest : List ℕ)
    → length input < 2 ^ 63
    → p ≤ length input
    → drop p input ≡ 0xc0 ∷ rest
    → 2 < f
    → p + 1 ≤ len
    → decode_at f len input p ≡ ok (slice empty, p + 1)
empty_list zero len input p rest small inside e h w = absurd (omega arith)
empty_list (suc zero) len input p rest small inside e h w = absurd (omega arith)
empty_list (suc (suc f)) len input p rest small inside e h w =
    unfold write_slice_header write_length in
    decode_at-write_slice_header (suc f) len input p small inside (omega (arith, w)) 0 rest e
      (omega arith)
    ∙ rw (decode_items_done f len input (p + 1) 0 0 (omega arith))

input_length :
    (input : List ℕ) (p : ℕ) (front rest : List ℕ)
    → p ≤ length input
    → drop p input ≡ front ++ rest
    → length input ≡ p + length front + length rest
input_length input p front rest inside e =
    omega (arith, length-drop p input, ap length e, length-append front rest)

size_of_encode_bytes : (t : List ℕ) → length t ≤ length (encode_bytes t)
unfolding encode_bytes
size_of_encode_bytes t = ground (arith, length-append (write_length 0x80 0xb7 (length t)) t)

encoded_bytes :
    (t : List ℕ) (f len : ℕ) (input : List ℕ) (p : ℕ) (rest : List ℕ)
    → length input < 2 ^ 63
    → p ≤ length input
    → drop p input ≡ encode_bytes t ++ rest
    → 2 * length (encode_bytes t) < f
    → p + length (encode_bytes t) ≤ len
    → decode_at f len input p ≡ ok (decoded_bytes t, p + length (encode_bytes t))
encoded_bytes t zero len input p rest small inside e h w = absurd (omega arith)
encoded_bytes t (suc f) len input p rest small inside e h w =
    decode_at-encode_bytes f len input p small inside (omega (arith, w, encode_bytes_pos t)) t rest
      e (omega (arith, input_length input p (encode_bytes t) rest inside e, size_of_encode_bytes t))

both : (a b : Bool) → (a && b) ≡ true → (a ≡ true) × (b ≡ true)
both a b h = ground arith

-- With enough fuel a value, or the rest of a list, is read back where it stands.
abbrev ReadsValue : Value → Type 0
ReadsValue v =
    (f len : ℕ) (input : List ℕ) (p : ℕ) (rest : List ℕ)
    → length input < 2 ^ 63
    → p ≤ length input
    → drop p input ≡ encode v ++ rest
    → 2 * length (encode v) < f
    → p + length (encode v) ≤ len
    → decode_at f len input p ≡ ok (decoded v, p + length (encode v))

abbrev ReadsValues : Values → Type 0
ReadsValues vs =
    (f len : ℕ) (input : List ℕ) (p i b : ℕ) (rest : List ℕ)
    → length input < 2 ^ 63
    → p ≤ length input
    → drop p input ≡ encode_all vs ++ rest
    → i + length (encode_all vs) ≡ b
    → b < 2 ^ 63
    → suc (2 * length (encode_all vs)) < f
    → p + length (encode_all vs) ≤ len
    → decode_items f len input p i b ≡ ok (decoded_all vs, p + length (encode_all vs))

slice-ReadsValue : (vs : Values) → ReadsValues vs → ReadsValue (slice vs)
unfolding encode decoded
slice-ReadsValue vs ih zero len input p rest small inside e h w = absurd (omega arith)
slice-ReadsValue vs ih (suc f) len input p rest small inside e h w =
    let body = encode_all vs in
    let n = length body in
    let head = write_slice_header n in
    let e' = e ∙ append_assoc head body rest in
    let total = input_length input p (head ++ body) rest inside e in
    let parts = length-append head body in
    let one = rw append-nil at (write_slice_header_pos n []) in
    decode_at-write_slice_header f len input p small inside (omega (arith, w, parts, one)) n
      (body ++ rest) e' (omega (arith, total, parts))
    ∙ rw
        (ih f len input (p + length head) 0 n rest small (omega (arith, total, parts))
          (drop-past p input head e') (omega arith) (omega (arith, total, parts))
          (omega (arith, parts, one)) (omega (arith, w, parts)))
        (ap (λ (q : ℕ). ok (slice (decoded_all vs), q)) (omega (arith, parts)))

item-ReadsValues :
    (v : Value) (vs : Values)
    → 1 ≤ length (encode v)
    → ReadsValue v
    → ReadsValues vs
    → ReadsValues (item v vs)
unfolding encode decoded
item-ReadsValues v vs one ihv ihs zero len input p i b rest small inside e eb hb h w =
    absurd (omega arith)
item-ReadsValues v vs one ihv ihs (suc f) len input p i b rest small inside e eb hb h w =
    let n = length (encode v) in
    let m = length (encode_all vs) in
    let parts : length (encode v ++ encode_all vs) ≡ n + m =
      length-append (encode v) (encode_all vs) in
    let e' = e ∙ append_assoc (encode v) (encode_all vs) rest in
    let total = input_length input p (encode v ++ encode_all vs) rest inside e in
    decode_items_more f len input p i b (p + n) (i + n) (omega (arith, parts))
      (ihv f len input p (encode_all vs ++ rest) small inside e' (omega (arith, parts))
        (omega (arith, w, parts)))
      (advance i p n (omega arith) (omega (arith, parts)))
      (ihs f len input (p + n) (i + n) b rest small (omega (arith, total, parts))
        (drop-past p input (encode v) e') (omega (arith, parts)) hb (omega (arith, parts))
        (omega (arith, w, parts)))
    ∙ ap (λ (q : ℕ). ok (item (decoded v) (decoded_all vs), q)) (omega (arith, parts))

empty-ReadsValues : ReadsValues empty
unfolding encode decoded
empty-ReadsValues zero len input p i b rest small inside e eb hb h w = absurd (omega arith)
empty-ReadsValues (suc f) len input p i b rest small inside e eb hb h w =
    decode_items_done f len input p i b (omega arith) ∙ ap (λ (q : ℕ). ok (empty, q)) (omega arith)

mutual
  unfolding encode decoded is_encodable encode_big

  encode-ReadsValue : (v : Value) → is_encodable v ≡ true → ReadsValue v
  encode-ReadsValue nil g = empty_list
  encode-ReadsValue (ptr v) g = encode-ReadsValue v g
  encode-ReadsValue (int z) g = encoded_bytes (big_bytes (nat_abs z))
  encode-ReadsValue (uint n) g = encoded_bytes (big_bytes (nat_abs (to_int64 n)))
  encode-ReadsValue (byte n) g = encoded_bytes (big_bytes n)
  encode-ReadsValue (big z) g = encoded_bytes (big_bytes (nat_abs z))
  encode-ReadsValue big_nil g = empty_list
  encode-ReadsValue (bytes t) g = encoded_bytes t
  encode-ReadsValue (str t) g = encoded_bytes t
  encode-ReadsValue (slice vs) g = slice-ReadsValue vs (encode_all-ReadsValues vs g)
  encode-ReadsValue other g = cc

  encode_all-ReadsValues : (vs : Values) → are_encodable vs ≡ true → ReadsValues vs
  encode_all-ReadsValues empty g = empty-ReadsValues
  encode_all-ReadsValues (item v vs) g =
      let (gv, gs) = both (is_encodable v) (are_encodable vs) g in
      item-ReadsValues v vs (encode_pos v gv) (encode-ReadsValue v gv)
        (encode_all-ReadsValues vs gs)

-- Decode at the position where an encoded value begins gives what the encoding keeps of the value
-- and the position behind it, whatever stands before and after, within the length of the slice and
-- behind it, for values whose every part has a type that Encode names and arrays below 2^63 bytes.
pub decode-encode :
    (len : ℕ) (front : List ℕ) (v : Value) (rest : List ℕ)
    → is_encodable v ≡ true
    → length (front ++ (encode v ++ rest)) < 2 ^ 63
    → length front + length (encode v) ≤ len
    → decode len (front ++ (encode v ++ rest)) (length front)
      ≡ ok (decoded v, length front + length (encode v))
unfolding decode
decode-encode len front v rest g small w =
    let whole = length-append front (encode v ++ rest) in
    let parts = length-append (encode v) rest in
    encode-ReadsValue v g _ len _ (length front) rest small (omega (arith, whole))
      (drop-append_length front (encode v ++ rest)) (omega (arith, whole, parts)) w
