-- ===== src/Rlp/Values.antt =====
-- The Go values that monkutil/rlp.go takes and gives: what a Value of monkutil/value.go holds.
use thelonious.Base.{ℕ, List}
use thelonious.Base.Int.{ℤ}

-- An `interface{}` by its dynamic type. `int` is any signed type, `uint` any unsigned one but byte,
-- `big_nil` a nil *big.Int, `bytes` a []byte or Bytes, `other` a type that Encode does not name.
mutual
  pub data Value : Type 0 where
    nil : Value
    ptr : Value → Value
    int : ℤ → Value
    uint : ℕ → Value
    byte : ℕ → Value
    big : ℤ → Value
    big_nil : Value
    bytes : List ℕ → Value
    str : List ℕ → Value
    slice : Values → Value
    other : Value

  pub data Values : Type 0 where
    empty : Values
    item : Value → Values → Values
