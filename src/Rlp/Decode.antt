-- ===== src/Rlp/Decode.antt =====
-- `_Decode` of monkutil/rlp.go, with COMPRESS false, its default. Positions are uint64. A read out
-- of range panics. The input is the array behind the slice `data`, from the slice's start up to its
-- capacity, and `len` the length of the slice: a byte is read within the length, but Go bounds a slice
-- expression by the capacity.
use thelonious.Base.{
  ℕ, zero, suc, ◌+◌, ◌-◌, ◌*◌, ◌%◌, ◌^◌, ◌<◌, List, [], ◌∷◌, ◌++◌, length, ltb, leb, if◌then◌else◌,
  Bool, true, false, Outcome, ok, panic, out_of_fuel, ◌>>=◌, index,
}
use thelonious.Base
use thelonious.Util.Bytes.{read_var_int}
use thelonious.Rlp.Values.{Value, Values, byte, bytes, slice, empty, item}

-- uint64 addition and subtraction.
unfoldable pub add64 : ℕ → ℕ → ℕ
add64 a b = (a + b) % 2 ^ 64

unfoldable pub sub64 : ℕ → ℕ → ℕ
sub64 a b = (a + 2 ^ 64 - b) % 2 ^ 64

-- The cases of the switch on the first byte.
pub data Kind : Type 0 where
  direct short_bytes long_bytes short_list long_list unsupported : Kind

unfoldable pub kind : ℕ → Kind
kind char =
    if leb char 0x7f
    then direct
    else if leb char 0xb7
    then short_bytes
    else if leb char 0xbf
    then long_bytes
    else if leb char 0xf7
    then short_list
    else if leb char 0xff
    then long_list
    else unsupported

unfoldable pub decode_short_bytes : List ℕ → ℕ → ℕ → Outcome (Value × ℕ)
decode_short_bytes input pos b = do
  ret ← Base.slice input (add64 pos 1) (add64 (add64 pos 1) b)
  ok (bytes ret, add64 (add64 pos 1) b)

unfoldable pub decode_long_bytes : List ℕ → ℕ → ℕ → Outcome (Value × ℕ)
decode_long_bytes input pos b = do
  size ← Base.slice input (add64 pos 1) (add64 (add64 pos 1) b)
  let b2 = read_var_int size
  ret ← Base.slice input (add64 (add64 pos 1) b) (add64 (add64 (add64 pos 1) b) b2)
  ok (bytes ret, add64 (add64 (add64 pos 1) b) b2)

-- `data[pos]`
unfoldable pub index_within : ℕ → List ℕ → ℕ → Outcome ℕ
index_within len input pos = if ltb pos len then index input pos else panic

-- The switch on the first byte, over the loop that reads the items of a list.
abbrev pub decode_head :
    (ℕ → ℕ → ℕ → Outcome (Values × ℕ)) → Kind → List ℕ → ℕ → ℕ → Outcome (Value × ℕ)
decode_head items direct input pos char = ok (byte char, add64 pos 1)
decode_head items short_bytes input pos char = decode_short_bytes input pos (char - 0x80)
decode_head items long_bytes input pos char = decode_long_bytes input pos (char - 0xb7)
decode_head items short_list input pos char = do
  (vs, p) ← items (add64 pos 1) 0 (char - 0xc0)
  ok (slice vs, p)
decode_head items long_list input pos char = do
  size ← Base.slice input (add64 pos 1) (add64 (add64 pos 1) (char - 0xf7))
  (vs, p) ← items (add64 (add64 pos (char - 0xf7)) 1) 0 (read_var_int size)
  ok (slice vs, p)
decode_head items unsupported input pos char = panic

-- Both functions pass a part of the input that is no structural part, so each call costs fuel.
-- `decode_items` is the loop `for i < b`, which counts the bytes that the items took.
unfoldable mutual
  pub decode_at : ℕ → ℕ → List ℕ → ℕ → Outcome (Value × ℕ)
  decode_at zero len input pos = out_of_fuel
  decode_at (suc f) len input pos = do
    char ← index_within len input pos
    decode_head (decode_items f len input) (kind char) input pos char

  pub decode_items : ℕ → ℕ → List ℕ → ℕ → ℕ → ℕ → Outcome (Values × ℕ)
  decode_items zero len input pos i b = out_of_fuel
  decode_items (suc f) len input pos i b = elim (ltb i b) [
    | false ↦ ok (empty, pos)
    | true ↦ decode_at f len input pos >>= λ (obj, prev_pos).
        decode_items f len input prev_pos (add64 i (sub64 prev_pos pos)) b >>= λ (rest, p).
        ok (item obj rest, p)
  ]

-- `Decode(data, pos)`: every call consumes a byte at least, so this fuel is enough.
unfoldable pub decode : ℕ → List ℕ → ℕ → Outcome (Value × ℕ)
unfolding decode_at
decode len input pos = decode_at (2 * length input + 2) len input pos
