-- ===== src/Vm/Arithmetic.antt =====
-- The arithmetic, comparison and bit instructions of RunClosure, monkvm/vm.go, on the stack alone.
-- The top of the stack stands first. Values are numbers up to 2 ^ 256.
pub mod Words
pub mod Kept
use Prim.Native.Nat.{bit_and, bit_or, bit_xor}
use thelonious.Base.{
  ℕ, zero, suc, ◌+◌, ◌-◌, ◌*◌, ◌/◌, ◌%◌, ◌^◌, List, [], ◌∷◌, length, ltb, ◌==◌, if◌then◌else◌, Bool,
  true, false, ◌&&◌, Outcome, ok, panic, ◌>>=◌, index,
}
use thelonious.Base.Int.{ℤ, pos, negsuc, ◌-ℤ◌}
use thelonious.Util.Big.{big_bytes}
use thelonious.Util.Bytes.{left_pad_bytes}
use thelonious.Vm.Stack

pub data Arith : Type 0 where
  add sub mul div sdiv modulo smodulo exp neg lt gt slt sgt eq not and or xor byte addmod mulmod :
      Arith

abbrev pub pow256 : ℕ
pow256 = 2 ^ 256

-- `x.And(x, 2^256 - 1)`, which for a negative number reads its two's complement.
unfoldable pub ensure256 : ℤ → ℕ
ensure256 (pos n) = n % pow256
ensure256 (negsuc n) = pow256 - 1 - n % pow256

abbrev pub truth : Bool → ℕ
truth b = if b then 1 else 0

-- `require(2)`, `x, y := stack.Popn()` and a push; `y` is the top.
unfoldable pub binary : (ℕ → ℕ → Outcome ℕ) → List ℕ → Outcome (List ℕ)
binary f st =
    Stack.requiring 2 st (Stack.popn st >>= λ (x, y, rest). f y x >>= λ r. ok (Stack.push r rest))

-- big.Int's Mod panics on 0.
unfoldable pub big_mod : ℕ → ℕ → Outcome ℕ
big_mod y x = if x == 0 then panic else ok (ensure256 (pos (y % x)))

unfoldable pub byte_at : ℕ → ℕ → Outcome ℕ
byte_at th val =
    if ltb th 32 && ltb th (length (big_bytes val))
    then index (left_pad_bytes (big_bytes val) 32) th
    else ok 0

-- `require(3)`, three pops, and a push of `f x y % z`.
unfoldable pub ternary : (ℕ → ℕ → ℕ) → List ℕ → Outcome (List ℕ)
unfolding big_mod
ternary f st = Stack.requiring 3 st (
    Stack.pop st >>= λ (x, st1). Stack.pop st1 >>= λ (y, st2).
    Stack.pop st2 >>= λ (z, st3). big_mod (f x y) z >>= λ r. ok (Stack.push r st3))

unfoldable pub unary : (ℕ → ℕ) → List ℕ → Outcome (List ℕ)
unary f st = Stack.requiring 1 st (Stack.pop st >>= λ (x, rest). ok (Stack.push (f x) rest))

unfoldable pub exec_arith : Arith → List ℕ → Outcome (List ℕ)
unfolding binary unary ternary
exec_arith add = binary (λ y x. ok (ensure256 (pos (y + x))))
exec_arith sub = binary (λ y x. ok (ensure256 (pos y -ℤ pos x)))
exec_arith mul = binary (λ y x. ok (ensure256 (pos (y * x))))
exec_arith div = binary (λ y x. ok (ensure256 (pos (if x == 0 then 0 else y / x))))
exec_arith sdiv = binary (λ y x. ok (ensure256 (pos (if x == 0 then 0 else y / x))))
exec_arith modulo = binary big_mod
exec_arith smodulo = binary big_mod
exec_arith exp = binary (λ y x. ok (ensure256 (pos (y ^ x % pow256))))
exec_arith neg = unary (λ x. pow256 - x)
exec_arith lt = binary (λ y x. ok (truth (ltb y x)))
exec_arith gt = binary (λ y x. ok (truth (ltb x y)))
exec_arith slt = binary (λ y x. ok (truth (ltb y x)))
exec_arith sgt = binary (λ y x. ok (truth (ltb x y)))
exec_arith eq = binary (λ y x. ok (truth (x == y)))
exec_arith not = unary (λ x. if ltb 0 x then 0 else 1)
exec_arith and = binary (λ y x. ok (bit_and y x))
exec_arith or = binary (λ y x. ok (bit_or y x))
exec_arith xor = binary (λ y x. ok (bit_xor y x))
exec_arith byte = binary byte_at
exec_arith addmod = ternary (λ x y. x + y)
exec_arith mulmod = ternary (λ x y. x * y)
