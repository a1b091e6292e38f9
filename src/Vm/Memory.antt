-- ===== src/Vm/Memory.antt =====
-- monkvm/stack.go, the type Memory. Offsets and sizes are int64 numbers that are not negative.
pub mod Laws
use thelonious.Base.{
  ℕ, zero, suc, ◌+◌, ◌-◌, List, [], ◌∷◌, ◌++◌, length, ltb, if◌then◌else◌, Bool, true, false, take,
  drop, replicate, min, Option, none, some,
}

-- Go's `copy(store[offset:offset+size], value)`, where that slice is within the store.
unfoldable pub copy_into : List ℕ → ℕ → ℕ → List ℕ → List ℕ
copy_into store offset size value =
    let n = min size (length value) in
    take offset store ++ (take n value ++ drop (offset + n) store)

-- `totSize > lenSize` with `lenSize = len - 1`, and `diff - 1` new bytes.
unfoldable pub set : List ℕ → ℕ → ℕ → List ℕ → List ℕ
unfolding copy_into
set store offset size value =
    let tot_size = offset + size in
    let store' =
      if ltb (length store) (tot_size + 1)
      then store ++ replicate (tot_size - length store) 0
      else store in
    copy_into store' offset size value

unfoldable pub resize : List ℕ → ℕ → List ℕ
resize store size =
    if ltb (length store) size then store ++ replicate (size - length store) 0 else store

-- `none` is nil.
unfoldable pub get : List ℕ → ℕ → ℕ → Option (List ℕ)
get store offset size =
    if ltb offset (length store)
    then some (take (min (length store) (offset + size) - offset) (drop offset store))
    else none
