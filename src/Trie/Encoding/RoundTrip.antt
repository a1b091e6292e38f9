-- ===== src/Trie/Encoding/RoundTrip.antt =====
-- Keys survive their compact form, and texts their nibbles.
use thelonious.Base.{
  ℕ, ◌+◌, ◌-◌, ◌*◌, ◌/◌, ◌%◌, ◌<◌, ◌≡◌, ◌≢◌, refl, sym, ap, ◌∙◌, arith, List, [], ◌∷◌, ◌++◌,
  append-nil, length, ltb, ◌==◌, ==_iff, if◌then◌else◌, Bool, true, false, Bool-cases, ◌⊎◌, inl,
  inr, ok, ◌>>=◌, index, slice, slice-drop, index-drop, index_inv, All-index, drop-append_length,
  get_or, All, each_below, each_below-at, length-append, take-append_length,
}
use thelonious.Util.Big.{IsByte}
use thelonious.Trie.Encoding.{
  unflag, base, with_flags, pack, compact_encode, hex_encode, index_byte, index_bytes,
  compact_hex_decode, compact_decode, hex_digits, hex_decode, decode_compact,
}

abbrev pub IsNibble : ℕ → Type 0
IsNibble n = n < 16

-- Each of the sixteen digits is found where it stands.
digits_found : each_below (λ n. index_byte base (get_or base n 0) == n) 16 ≡ true
unfolding each_below index_byte
digits_found = refl

index_byte-digit : (n : ℕ) → n < 16 → index_byte base (get_or base n 0) ≡ n
index_byte-digit n h = (==_iff _ n).0 (each_below-at _ 16 n h digits_found)

pub nibbles-cons :
    (b : ℕ) (bs : List ℕ)
    → IsByte b
    → index_bytes (hex_encode (b ∷ bs)) ≡ b / 16 ∷ b % 16 ∷ index_bytes (hex_encode bs)
unfolding index_bytes hex_encode
nibbles-cons b bs h =
    rw (index_byte-digit (b / 16) (omega arith), index_byte-digit (b % 16) (omega arith))

-- Packing an even number of nibbles gives the bytes that have them.
pack_lem :
    (k : List ℕ)
    → length k % 2 ≡ 0
    → All IsNibble k
    → (bs : List ℕ) × (pack k ≡ ok bs) × (index_bytes (hex_encode bs) ≡ k)
unfolding pack
pack_lem [] e h = ([], refl, unfold index_bytes hex_encode in refl)
pack_lem (x ∷ []) e h = absurd (omega arith)
pack_lem (x ∷ y ∷ k) e (hx, (hy, h)) =
    let (bs, p, q) = pack_lem k (omega arith) h in
    (
      (16 * x + y) % 256 ∷ bs,
      rw p,
      nibbles-cons ((16 * x + y) % 256) bs (omega arith) ∙ rw q (ground arith),
    )

-- The terminator of a key that ends in a value.
abbrev pub terminator : Bool → List ℕ
terminator true = 16 ∷ []
terminator false = []

with_flags_even : (t : Bool) (ns : List ℕ) → length (with_flags t ns) % 2 ≡ 0
unfolding with_flags
with_flags_even t ns = ground arith

with_flags-IsNibble : (t : Bool) (ns : List ℕ) → All IsNibble ns → All IsNibble (with_flags t ns)
unfolding with_flags
with_flags-IsNibble t ns h = ground arith

-- The slices that drop the last element, and the first ones.
slice_init : (hs : List ℕ) (x : ℕ) → slice (hs ++ (x ∷ [])) 0 (length (hs ++ (x ∷ [])) - 1) ≡ ok hs
slice_init hs x =
    slice-drop 0 _ (hs ++ (x ∷ [])) hs (x ∷ []) refl (omega arith)
      (omega (arith, length-append hs (x ∷ [])))

slice_one : (x : ℕ) (r : List ℕ) → slice (x ∷ r) 1 (length (x ∷ r)) ≡ ok r
slice_one x r = slice-drop 1 _ (x ∷ r) r [] (sym (append-nil r)) (omega arith) (omega arith)

slice_two : (x y : ℕ) (r : List ℕ) → slice (x ∷ y ∷ r) 2 (length (x ∷ y ∷ r)) ≡ ok r
slice_two x y r = slice-drop 2 _ (x ∷ y ∷ r) r [] (sym (append-nil r)) (omega arith) (omega arith)

-- The flag nibble tells the parity and the terminator.
with_flags_cases :
    (t : Bool) (ns : List ℕ)
    → with_flags t ns ≡ (if t then 3 else 1) ∷ ns ⊎ with_flags t ns ≡ (if t then 2 else 0) ∷ 0 ∷ ns
unfolding with_flags
with_flags_cases true ns = elim (Bool-cases (length ns % 2 == 0)) [
  | inl e ↦ inr (ground arith)
  | inr e ↦ inl (ground arith)
]
with_flags_cases false ns = elim (Bool-cases (length ns % 2 == 0)) [
  | inl e ↦ inr (ground arith)
  | inr e ↦ inl (ground arith)
]

unflag-with_flags : (t : Bool) (ns : List ℕ) → unflag (with_flags t ns) ≡ ok (ns ++ terminator t)
unfolding unflag
unflag-with_flags true ns = elim (with_flags_cases true ns) [
  | inl e ↦ rw e (slice_one 3 (ns ++ (16 ∷ [])))
  | inr e ↦ rw e (slice_two 2 0 (ns ++ (16 ∷ [])))
]
unflag-with_flags false ns = elim (with_flags_cases false ns) [
  | inl e ↦ rw (e, append-nil) (slice_one 1 ns)
  | inr e ↦ rw (e, append-nil) (slice_two 0 0 ns)
]

-- The last element, where the terminator is and where it is not.
last_terminator : (ns : List ℕ) → index (ns ++ (16 ∷ [])) (length ns) ≡ ok 16
last_terminator ns = index-drop (length ns) (ns ++ (16 ∷ [])) (drop-append_length ns (16 ∷ []))

last_nibble :
    (ns : List ℕ)
    → All IsNibble ns
    → ns ≢ []
    → (x : ℕ) × (index ns (length ns - 1) ≡ ok x) × ((x == 16) ≡ false)
last_nibble [] h k = absurd (k refl)
last_nibble (n ∷ ns) h k = elim (index_inv (n ∷ ns) (length (n ∷ ns) - 1)) [
  | inl (_, past) ↦ absurd (omega arith)
  | inr (x, e, _) ↦
      let small = All-index IsNibble (n ∷ ns) (length (n ∷ ns) - 1) h e in (x, e, ground arith)
]

-- What CompactEncode packs: the key without its terminator.
compact_encode_lem :
    (ns : List ℕ) (t : Bool)
    → All IsNibble ns
    → (t ≡ false → ns ≢ [])
    → compact_encode (ns ++ terminator t) ≡ pack (with_flags t ns)
unfolding compact_encode
compact_encode_lem ns true h k =
    let short : length (ns ++ (16 ∷ [])) - 1 ≡ length ns =
      omega (arith, length-append ns (16 ∷ [])) in
    rw short (rw (last_terminator ns) (rw (take-append_length ns (16 ∷ []))))
compact_encode_lem ns false h k =
    let (x, e, low) = last_nibble ns h (k refl) in rw append-nil (rw e (rw low))

-- CompactDecode gives back the nibbles, with or without the terminator 16, that CompactEncode was
-- given, unless they are the empty slice.
pub compact_decode-compact_encode :
    (ns : List ℕ) (t : Bool)
    → All IsNibble ns
    → (t ≡ false → ns ≢ [])
    → (compact_encode (ns ++ terminator t) >>= compact_decode) ≡ ok (ns ++ terminator t)
unfolding compact_decode compact_hex_decode
compact_decode-compact_encode ns t h k =
    let (bs, p, q) =
      pack_lem (with_flags t ns) (with_flags_even t ns) (with_flags-IsNibble t ns h) in
    rw (compact_encode_lem ns t h k)
      (rw p (rw q (rw (slice_init (with_flags t ns) 16) (unflag-with_flags t ns))))

hex_digit_iff : (n : ℕ) → n < 16 → ltb n 16 ≡ true
hex_digit_iff n h = ground arith

hex_digits-cons_two :
    (n m : ℕ) (l : List ℕ)
    → n < 16
    → m < 16
    → hex_digits (n ∷ m ∷ l) ≡ get_or base n 0 ∷ get_or base m 0 ∷ hex_digits l
unfolding hex_digits
hex_digits-cons_two n m l hn hm = rw (hex_digit_iff n hn, hex_digit_iff m hm)

hex_digits-nibbles :
    (s tail : List ℕ)
    → All IsByte s
    → hex_digits (index_bytes (hex_encode s) ++ tail) ≡ hex_encode s ++ hex_digits tail
hex_digits-nibbles [] tail h = unfold index_bytes hex_encode in refl
hex_digits-nibbles (b ∷ s) tail (hb, h) = rw (nibbles-cons b s hb) (
    rw
      (hex_digits-cons_two (b / 16) (b % 16) (index_bytes (hex_encode s) ++ tail) (omega arith)
        (omega arith))
      (rw (hex_digits-nibbles s tail h) (unfold hex_encode in refl)))

hex_decode-hex_encode :
    (broken : List ℕ → List ℕ) (s : List ℕ) → All IsByte s → hex_decode broken (hex_encode s) ≡ s
unfolding hex_decode hex_encode
hex_decode-hex_encode broken [] h = refl
hex_decode-hex_encode broken (b ∷ s) (hb, h) =
    rw
      (
        index_byte-digit (b / 16) (omega arith),
        index_byte-digit (b % 16) (omega arith),
        hex_decode-hex_encode broken s h,
      )
      (ap (λ (c : ℕ). c ∷ s) (omega arith))

-- DecodeCompact gives back the text whose nibbles CompactHexDecode listed, whatever hex.DecodeString
-- returns beside an error.
pub decode_compact-compact_hex_decode :
    (broken : List ℕ → List ℕ) (s : List ℕ)
    → All IsByte s
    → decode_compact broken (compact_hex_decode s) ≡ s
unfolding decode_compact compact_hex_decode
decode_compact-compact_hex_decode broken s h =
    rw (hex_digits-nibbles s (16 ∷ []) h)
      (unfold hex_digits in rw append-nil (hex_decode-hex_encode broken s h))
