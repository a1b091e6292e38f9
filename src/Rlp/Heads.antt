-- ===== src/Rlp/Heads.antt =====
-- One call of `_Decode` on each form of head that `_Encode` writes.
use thelonious.Base.{
  lt→ltb, ℕ, zero, suc, ◌+◌, ◌-◌, ◌*◌, ◌%◌, ◌^◌, ◌<◌, ◌≤◌, ◌≡◌, refl, sym, ap, ◌∙◌, arith, List, [],
  ◌∷◌, ◌++◌, length, ltb, leb, if◌then◌else◌, Bool, true, false, Outcome, ok, panic, out_of_fuel,
  ◌>>=◌, index, index-drop, slice-drop, drop, drop-past, length-drop, length-append, append_assoc,
  Bool-cases, leb→le, ◌⊎◌, inl, inr,
}
use thelonious.Base
use thelonious.Util.Big.{big_bytes, length-big_bytes, length-big_bytes_pos}
use thelonious.Util.Bytes.Numbers.{read_var_int-big_bytes}
use mathlib.Core.Path.{ap₂}
use native.Mathlib.Decide.{dec_lt}
use thelonious.Rlp.Values.{Value, Values, byte, bytes, slice}
use thelonious.Rlp.Encode.{is_direct, write_length, encode_bytes, write_slice_header}
use thelonious.Rlp.Decode.{
  add64, Kind, kind, direct, short_bytes, long_bytes, short_list, long_list, decode_short_bytes,
  decode_long_bytes, decode_at, decode_items, decode_head, index_within,
}

pub add64_small : (a b : ℕ) → a + b < 2 ^ 64 → add64 a b ≡ a + b
unfolding add64
add64_small a b h = omega arith

kind_direct : (c : ℕ) → c ≤ 0x7f → kind c ≡ direct
unfolding kind
kind_direct c h = ground arith

kind_short_bytes : (c : ℕ) → 0x80 ≤ c → c ≤ 0xb7 → kind c ≡ short_bytes
unfolding kind
kind_short_bytes c lo hi = ground arith

kind_long_bytes : (c : ℕ) → 0xb8 ≤ c → c ≤ 0xbf → kind c ≡ long_bytes
unfolding kind
kind_long_bytes c lo hi = ground arith

kind_short_list : (c : ℕ) → 0xc0 ≤ c → c ≤ 0xf7 → kind c ≡ short_list
unfolding kind
kind_short_list c lo hi = ground arith

kind_long_list : (c : ℕ) → 0xf8 ≤ c → c ≤ 0xff → kind c ≡ long_list
unfolding kind
kind_long_list c lo hi = ground arith

-- What a head says of a length `n` that fits an int64.
write_length_short :
    (short long n : ℕ) → n < 56 → short ≤ 0xc0 → write_length short long n ≡ (n + short) ∷ []
unfolding write_length
write_length_short short long n h k = ground arith

size_bytes : (n : ℕ) → 56 ≤ n → n < 2 ^ 63 → (1 ≤ length (big_bytes n)) × (length (big_bytes n) ≤ 8)
size_bytes n lo hi = omega (arith, length-big_bytes_pos n, length-big_bytes 8 n)

write_length_long :
    (short long n : ℕ)
    → 56 ≤ n
    → n < 2 ^ 63
    → long ≤ 0xf7
    → write_length short long n ≡ (length (big_bytes n) + long) ∷ big_bytes n
unfolding write_length
write_length_long short long n lo hi k = ground (arith, size_bytes n)

-- The input from position `p` on, where a head has been read.
module _ (input : List ℕ) (p : ℕ) (small : length input < 2 ^ 63) (inside : p ≤ length input) where
  room :
      (front rest : List ℕ)
      → drop p input ≡ front ++ rest
      → length input ≡ p + length front + length rest
  room front rest e = omega (arith, length-drop p input, ap length e, length-append front rest)

  decode_short_bytes_lem :
      (c : ℕ) (t rest : List ℕ)
      → drop p input ≡ c ∷ (t ++ rest)
      → decode_short_bytes input p (length t) ≡ ok (bytes t, p + (1 + length t))
  unfolding decode_short_bytes
  decode_short_bytes_lem c t rest e =
      let total = room (c ∷ []) (t ++ rest) e in
      let parts = length-append t rest in
      rw
        (
          add64_small p 1 (omega (arith, total)),
          add64_small (p + 1) (length t) (omega (arith, total, parts)),
        )
        (rw
          (slice-drop (p + 1) (p + 1 + length t) input t rest (drop-past p input (c ∷ []) e)
            (omega (arith, total)) refl)
          (ap (λ (n : ℕ). ok (bytes t, n)) (omega arith)))

  -- The bytes of a size behind a head, and what they measure.
  size_slice :
      (c n : ℕ) (rest : List ℕ)
      → drop p input ≡ c ∷ (big_bytes n ++ rest)
      → Base.slice input (add64 p 1) (add64 (add64 p 1) (length (big_bytes n))) ≡ ok (big_bytes n)
  size_slice c n rest e =
      let total = room (c ∷ []) (big_bytes n ++ rest) e in
      let parts = length-append (big_bytes n) rest in
      rw
        (
          add64_small p 1 (omega (arith, total)),
          add64_small (p + 1) (length (big_bytes n)) (omega (arith, total, parts)),
        )
        (slice-drop (p + 1) _ input (big_bytes n) rest (drop-past p input (c ∷ []) e)
          (omega (arith, total)) refl)

  decode_long_bytes_lem :
      (c : ℕ) (t rest : List ℕ)
      → drop p input ≡ c ∷ (big_bytes (length t) ++ (t ++ rest))
      → length t < 2 ^ 63
      → decode_long_bytes input p (length (big_bytes (length t)))
        ≡ ok (bytes t, p + (suc (length (big_bytes (length t))) + length t))
  unfolding decode_long_bytes
  decode_long_bytes_lem c t rest e short =
      let b = big_bytes (length t) in
      let total = room (c ∷ []) (b ++ (t ++ rest)) e in
      let parts = length-append b (t ++ rest) in
      let parts' = length-append t rest in
      let after = drop-past (p + 1) input b (drop-past p input (c ∷ []) e) in
      let at = p + 1 + length b in
      rw (size_slice c (length t) (t ++ rest) e, read_var_int-big_bytes (length t) (omega arith))
        (rw
          (
            add64_small p 1 (omega (arith, total)),
            add64_small (p + 1) (length b) (omega (arith, total, parts)),
            add64_small at (length t) (omega (arith, total, parts, parts')),
          )
          (rw (slice-drop at (at + length t) input t rest after (omega (arith, total, parts)) refl)
            (ap (λ (n : ℕ). ok (bytes t, n)) (omega arith))))

  long_list_head :
      (items : ℕ → ℕ → ℕ → Outcome (Values × ℕ)) (c n : ℕ) (rest : List ℕ)
      → drop p input ≡ c ∷ (big_bytes n ++ rest)
      → n < 2 ^ 63
      → decode_head items long_list input p (length (big_bytes n) + 0xf7)
        ≡ (items (p + suc (length (big_bytes n))) 0 n >>= λ (vs, q). ok (slice vs, q))
  long_list_head items c n rest e h =
      let l = length (big_bytes n) in
      let back : l + 0xf7 - 0xf7 ≡ l = omega arith in
      let total = room (c ∷ []) (big_bytes n ++ rest) e in
      let parts = length-append (big_bytes n) rest in
      rw back (
        rw (size_slice c n rest e, read_var_int-big_bytes n (omega arith))
          (ap (λ (q : ℕ). items q 0 n >>= λ (vs, r). ok (slice vs, r))
            (ap (λ (q : ℕ). add64 q 1) (add64_small p l (omega (arith, total, parts)))
              ∙ add64_small (p + l) 1 (omega (arith, total, parts))
              ∙ omega arith)))

-- What `_Decode` gives for a byte slice: a byte where one byte stands for itself.
abbrev pub decoded_bytes : List ℕ → Value
decoded_bytes [] = bytes []
decoded_bytes (x ∷ []) = if leb x 0x7f then byte x else bytes (x ∷ [])
decoded_bytes (x ∷ y ∷ t) = bytes (x ∷ y ∷ t)

decoded_bytes-indirect : (t : List ℕ) → is_direct t ≡ false → decoded_bytes t ≡ bytes t
decoded_bytes-indirect [] h = refl
decoded_bytes-indirect (x ∷ []) h = rw h
decoded_bytes-indirect (x ∷ y ∷ t) h = refl

-- One call on what `encode_bytes` wrote.
module _ (f len : ℕ) (input : List ℕ) (p : ℕ) (small : length input < 2 ^ 63)
    (inside : p ≤ length input) (within : p < len) where
  step :
      (c : ℕ) (rest : List ℕ) (k : Kind)
      → drop p input ≡ c ∷ rest
      → kind c ≡ k
      → decode_at (suc f) len input p ≡ decode_head (decode_items f len input) k input p c
  unfolding decode_at index_within
  step c rest k e h =
      rw (lt→ltb p len within, index-drop p input e)
        (ap (λ k'. decode_head (decode_items f len input) k' input p c) h)

  decode_at-direct :
      (x : ℕ) (rest : List ℕ)
      → drop p input ≡ x ∷ rest
      → x ≤ 0x7f
      → decode_at (suc f) len input p ≡ ok (byte x, p + 1)
  decode_at-direct x rest e h =
      step x rest direct e (kind_direct x h)
      ∙ ap (λ (n : ℕ). ok (byte x, n)) (add64_small p 1 (omega (arith, inside, small)))

  decode_at-indirect :
      (t rest : List ℕ)
      → drop p input ≡ write_length 0x80 0xb7 (length t) ++ (t ++ rest)
      → length t < 2 ^ 63
      → decode_at (suc f) len input p
        ≡ ok (bytes t, p + (length (write_length 0x80 0xb7 (length t)) + length t))
  decode_at-indirect t rest e h = elim (dec_lt (length t) 56) [
    | yes less ↦
        let w = write_length_short 0x80 0xb7 (length t) less (omega arith) in
        let c = length t + 0x80 in
        rw w (
          step c (t ++ rest) short_bytes (rw w at e)
            (kind_short_bytes c (omega arith) (omega arith))
          ∙ ap (decode_short_bytes input p) (omega arith)
          ∙ decode_short_bytes_lem input p small inside c t rest (rw w at e))
    | no more ↦
        let w = write_length_long 0x80 0xb7 (length t) (omega arith) h (omega arith) in
        let size = size_bytes (length t) (omega arith) h in
        let c = length (big_bytes (length t)) + 0xb7 in
        rw w (
          step c _ long_bytes (rw w at e)
            (kind_long_bytes c (omega (arith, size)) (omega (arith, size)))
          ∙ ap (decode_long_bytes input p) (omega arith)
          ∙ decode_long_bytes_lem input p small inside c t rest (rw w at e) h)
  ]

  decode_at-encode_bytes_indirect :
      (t rest : List ℕ)
      → is_direct t ≡ false
      → drop p input ≡ encode_bytes t ++ rest
      → length t < 2 ^ 63
      → decode_at (suc f) len input p ≡ ok (decoded_bytes t, p + length (encode_bytes t))
  unfolding encode_bytes
  decode_at-encode_bytes_indirect t rest d e h =
      rw (d, decoded_bytes-indirect t d, length-append)
        (decode_at-indirect t rest
          (rw d at e ∙ append_assoc (write_length 0x80 0xb7 (length t)) t rest) h)

  -- A byte slice is read back whole, with the position behind it.
  pub decode_at-encode_bytes :
      (t rest : List ℕ)
      → drop p input ≡ encode_bytes t ++ rest
      → length t < 2 ^ 63
      → decode_at (suc f) len input p ≡ ok (decoded_bytes t, p + length (encode_bytes t))
  decode_at-encode_bytes [] rest e h = decode_at-encode_bytes_indirect [] rest refl e h
  decode_at-encode_bytes (x ∷ []) rest e h = elim (Bool-cases (leb x 0x7f)) [
    | inl low ↦
        unfold encode_bytes in rw low (decode_at-direct x rest (rw low at e) (leb→le x 0x7f low))
    | inr high ↦ decode_at-encode_bytes_indirect (x ∷ []) rest high e h
  ]
  decode_at-encode_bytes (x ∷ y ∷ t) rest e h =
      decode_at-encode_bytes_indirect (x ∷ y ∷ t) rest refl e h

  -- A list's head leads into the loop over its items.
  pub decode_at-write_slice_header :
      (n : ℕ) (rest : List ℕ)
      → drop p input ≡ write_slice_header n ++ rest
      → n < 2 ^ 63
      → decode_at (suc f) len input p ≡ (
          decode_items f len input (p + length (write_slice_header n)) 0 n >>= λ (vs, q).
          ok (slice vs, q))
  unfolding write_slice_header
  decode_at-write_slice_header n rest e h = elim (dec_lt n 56) [
    | yes less ↦
        let w = write_length_short 0xc0 0xf7 n less (omega arith) in
        rw w (
          step (n + 0xc0) rest short_list (rw w at e)
            (kind_short_list (n + 0xc0) (omega arith) (omega arith))
          ∙ ap₂ (λ (q : ℕ) (m : ℕ). decode_items f len input q 0 m >>= λ (vs, q). ok (slice vs, q))
              (add64_small p 1 (omega (arith, inside, small))) (omega arith))
    | no more ↦
        let w = write_length_long 0xc0 0xf7 n (omega arith) h (omega arith) in
        let size = size_bytes n (omega arith) h in
        let c = length (big_bytes n) + 0xf7 in
        rw w (
          step c _ long_list (rw w at e)
            (kind_long_list c (omega (arith, size)) (omega (arith, size)))
          ∙ long_list_head input p small inside (decode_items f len input) c n rest (rw w at e) h)
  ]
