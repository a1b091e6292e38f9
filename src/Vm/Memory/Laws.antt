-- ===== src/Vm/Memory/Laws.antt =====
-- What reads of the memory give after writes and growth.
use thelonious.Base.{
  ℕ, ◌+◌, ◌-◌, ◌<◌, ◌≤◌, ◌≡◌, ap, ◌∙◌, arith, List, ◌++◌, append-nil, length, length-append,
  length-replicate, ltb, true, take, drop, replicate, min, max, some, take_all, take-append_le,
  take-take, drop-take, drop_exact, Bool-cases, inl, inr, take-append_length, length-take,
  length-drop,
}
use thelonious.Vm.Memory.{copy_into, set, resize, get}

grown : List ℕ → ℕ → List ℕ
grown store n = store ++ replicate (n - length store) 0

length-grown : (store : List ℕ) (n : ℕ) → length (grown store n) ≡ max (length store) n
unfolding grown
length-grown store n = omega (
  arith,
  length-append store (replicate (n - length store) 0),
  length-replicate {A = ℕ} (n - length store) 0,
)

-- A write in range keeps the length.
length-copy_into :
    (store : List ℕ) (offset size : ℕ) (value : List ℕ)
    → offset + size ≤ length store
    → length (copy_into store offset size value) ≡ length store
unfolding copy_into
length-copy_into store offset size value h =
    let n = min size (length value) in
    omega (
      arith,
      length-append (take offset store) (take n value ++ drop (offset + n) store),
      length-append (take n value) (drop (offset + n) store),
      length-take offset store,
      length-take n value,
      length-drop (offset + n) store,
    )

-- A write is a write into the memory grown to its end.
set_lem :
    (store : List ℕ) (offset size : ℕ) (value : List ℕ)
    → set store offset size value ≡ copy_into (grown store (offset + size)) offset size value
unfolding set grown
set_lem store offset size value = elim (Bool-cases (ltb (length store) (offset + size + 1))) [
  | inl more ↦ rw more
  | inr enough ↦
      let none_new : offset + size - length store ≡ 0 = ground arith in
      rw enough (rw none_new (rw append-nil))
]

-- Memory grows to the end of what is written, and never shrinks.
pub length-set :
    (store : List ℕ) (offset size : ℕ) (value : List ℕ)
    → length (set store offset size value) ≡ max (length store) (offset + size)
length-set store offset size value =
    let g = length-grown store (offset + size) in
    rw set_lem
      (length-copy_into (grown store (offset + size)) offset size value (omega (arith, g)) ∙ g)

pub length-resize : (store : List ℕ) (n : ℕ) → length (resize store n) ≡ max (length store) n
unfolding resize
length-resize store n = ground (
  arith,
  length-append store (replicate (n - length store) 0),
  length-replicate {A = ℕ} (n - length store) 0,
)

-- The parts of a memory with a whole value written to it.
copy_into_parts :
    (store value : List ℕ) (offset : ℕ)
    → copy_into store offset (length value) value
      ≡ take offset store ++ (value ++ drop (offset + length value) store)
unfolding copy_into
copy_into_parts store value offset =
    let whole : min (length value) (length value) ≡ length value = omega arith in
    rw whole (rw (take_all (length value) value (omega arith)))

-- What was written is read back: a value of the written size, not empty.
pub get-set :
    (store : List ℕ) (offset : ℕ) (value : List ℕ)
    → 0 < length value
    → get (set store offset (length value) value) offset (length value) ≡ some value
unfolding get
get-set store offset value h =
    let n = length value in
    let g = grown store (offset + n) in
    let total = length-set store offset n value in
    let long = length-grown store (offset + n) in
    let inside : ltb offset (length (set store offset n value)) ≡ true = ground (arith, total) in
    let span : min (length (set store offset n value)) (offset + n) - offset ≡ n =
      omega (arith, total) in
    rw inside (
      rw span (
        rw (set_lem store offset n value, copy_into_parts g value offset)
          (rw
            (drop_exact offset (take offset g) (value ++ drop (offset + n) g)
              (omega (arith, long, length-take offset g)))
            (rw (take-append_length value (drop (offset + n) g))))))

-- The front of a memory, up to a write, is what it was.
take-set :
    (store : List ℕ) (offset size : ℕ) (value : List ℕ) (k : ℕ)
    → k ≤ offset
    → k ≤ length store
    → take k (set store offset size value) ≡ take k store
take-set store offset size value k before inside =
    let g = grown store (offset + size) in
    let long = length-grown store (offset + size) in
    ap (take k) (set_lem store offset size value)
    ∙ unfold copy_into in
      take-append_le k (take offset g) _ (omega (arith, long, length-take offset g))
      ∙ take-take k offset g before
      ∙ unfold grown in take-append_le k store _ inside

-- Bytes before a write, within the old memory, are read as they were.
get-set_before :
    (store : List ℕ) (offset size : ℕ) (value : List ℕ) (at n : ℕ)
    → at < length store
    → at + n ≤ offset
    → at + n ≤ length store
    → get (set store offset size value) at n ≡ get store at n
unfolding get
get-set_before store offset size value at n h before inside =
    let total = length-set store offset size value in
    let s = set store offset size value in
    let here : ltb at (length s) ≡ true = ground (arith, total) in
    let there : ltb at (length store) ≡ true = ground arith in
    let span : min (length s) (at + n) - at ≡ n = omega (arith, total) in
    let span' : min (length store) (at + n) - at ≡ n = omega arith in
    rw (here, there)
      (rw (span, span')
        (rw (← drop-take at n s, ← drop-take at n store)
          (rw (take-set store offset size value (at + n) before inside))))
