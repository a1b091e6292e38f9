-- ===== src/Trie/Encoding.antt =====
-- monktrie/encoding.go: keys as nibbles, and their compact form with a flag nibble in front. An `int`
-- of these slices is never negative, and a Go string is the list of its bytes.
pub mod RoundTrip
use thelonious.Base.{
  ℕ, zero, suc, ◌+◌, ◌-◌, ◌*◌, ◌/◌, ◌%◌, ◌<◌, List, [], ◌∷◌, ◌++◌, length, ltb, leb, ◌==◌,
  if◌then◌else◌, Bool, true, false, Outcome, ok, panic, ◌>>=◌, index, slice, take, drop, get_or,
}

-- "0123456789abcdef"
abbrev pub base : List ℕ
base = 48 ∷ 49 ∷ 50 ∷ 51 ∷ 52 ∷ 53 ∷ 54 ∷ 55 ∷ 56 ∷ 57 ∷ 97 ∷ 98 ∷ 99 ∷ 100 ∷ 101 ∷ 102 ∷ []

-- The flag nibble and the padding of an even number of nibbles.
unfoldable pub with_flags : Bool → List ℕ → List ℕ
with_flags terminated body =
    let oddlen = length body % 2 in
    let flags = 2 * (if terminated then 1 else 0) + oddlen in
    if oddlen == 0 then flags ∷ 0 ∷ body else flags ∷ body

-- `byte(16*hexSlice[i] + hexSlice[i+1])` for every other `i`.
unfoldable pub pack : List ℕ → Outcome (List ℕ)
pack [] = ok []
pack (h ∷ []) = panic
pack (h ∷ l ∷ rest) = pack rest >>= λ bs. ok ((16 * h + l) % 256 ∷ bs)

unfoldable pub compact_encode : List ℕ → Outcome (List ℕ)
unfolding with_flags pack
compact_encode hex_slice = do
  last ← index hex_slice (length hex_slice - 1)
  let terminated = last == 16
  let body = if terminated then take (length hex_slice - 1) hex_slice else hex_slice
  pack (with_flags terminated body)

-- `hex.EncodeToString`
unfoldable pub hex_encode : List ℕ → List ℕ
hex_encode [] = []
hex_encode (b ∷ bs) = get_or base (b / 16) 0 ∷ get_or base (b % 16) 0 ∷ hex_encode bs

-- `strings.IndexByte`; a byte of a hexadecimal text is always found.
unfoldable pub index_byte : List ℕ → ℕ → ℕ
index_byte [] c = 0
index_byte (x ∷ xs) c = if x == c then 0 else suc (index_byte xs c)

unfoldable pub index_bytes : List ℕ → List ℕ
unfolding index_byte
index_bytes [] = []
index_bytes (v ∷ enc) = index_byte base v ∷ index_bytes enc

unfoldable pub compact_hex_decode : List ℕ → List ℕ
unfolding hex_encode index_bytes
compact_hex_decode str = index_bytes (hex_encode str) ++ (16 ∷ [])

-- The nibbles behind the flag, with the terminator back where the flag says so.
unfoldable pub unflag : List ℕ → Outcome (List ℕ)
unflag nibbles = do
  first ← index nibbles 0
  let nibbles' = if leb 2 first then nibbles ++ (16 ∷ []) else nibbles
  if first % 2 == 1 then slice nibbles' 1 (length nibbles') else slice nibbles' 2 (length nibbles')

unfoldable pub compact_decode : List ℕ → Outcome (List ℕ)
unfolding compact_hex_decode unflag
compact_decode str = do
  let hex = compact_hex_decode str
  nibbles ← slice hex 0 (length hex - 1)
  unflag nibbles

-- The digits of the nibbles below 16.
unfoldable pub hex_digits : List ℕ → List ℕ
hex_digits [] = []
hex_digits (v ∷ key) = if ltb v 16 then get_or base v 0 ∷ hex_digits key else hex_digits key

-- `hex.DecodeString` of digits; `broken` is what it returns beside its error on an odd number of them.
unfoldable pub hex_decode : (List ℕ → List ℕ) → List ℕ → List ℕ
unfolding index_byte
hex_decode broken [] = []
hex_decode broken (c ∷ []) = broken (c ∷ [])
hex_decode broken (c ∷ d ∷ rest) =
    (16 * index_byte base c + index_byte base d) ∷ hex_decode broken rest

unfoldable pub decode_compact : (List ℕ → List ℕ) → List ℕ → List ℕ
unfolding hex_digits hex_decode
decode_compact broken key = hex_decode broken (hex_digits key)
