-- ===== src/Vm/Loop/Words.antt =====
-- The arithmetic instructions end, with a result or a panic.
use thelonious.Base.{
  ℕ, ◌*◌, ◌/◌, ◌+◌, ◌-◌, ◌^◌, ◌%◌, List, [], ◌∷◌, length, ltb, ◌==◌, if◌then◌else◌, ◌&&◌, Outcome,
  ok, ◌>>=◌, index,
}
use Prim.Native.Nat.{bit_and, bit_or, bit_xor}
use thelonious.Base.Int.{pos, ◌-ℤ◌}
use thelonious.Util.Big.{big_bytes}
use thelonious.Util.Bytes.{left_pad_bytes}
use thelonious.Vm.Stack
use thelonious.Vm.Arithmetic.{
  Arith, exec_arith, binary, unary, ternary, ensure256, pow256, truth, big_mod, byte_at,
}
use thelonious.Vm.Machine.Ends.{Ends, index-Ends, Holds-if, then_any, requiring-Holds}

binary-Ends :
    (f : ℕ → ℕ → Outcome ℕ) → ((y x : ℕ) → Ends (f y x)) → (st : List ℕ) → Ends (binary f st)
unfolding binary
binary-Ends f h st = requiring-Holds _ 2 st _ (two st)
  where
    two :
        (st' : List ℕ)
        → Ends (Stack.popn st' >>= λ (x, y, rest). f y x >>= λ r. ok (Stack.push r rest))
    two [] = unfold Stack.popn in tt
    two (y ∷ []) = unfold Stack.popn in tt
    two (y ∷ x ∷ rest) = unfold Stack.popn in then_any _ (f y x) _ (h y x) (λ r. tt)

pure-Ends : (g : ℕ → ℕ → ℕ) (st : List ℕ) → Ends (binary (λ y x. ok (g y x)) st)
pure-Ends g st = binary-Ends (λ y x. ok (g y x)) (λ y x. tt) st

unary-Ends : (f : ℕ → ℕ) (st : List ℕ) → Ends (unary f st)
unfolding unary Stack.pop
unary-Ends f [] = requiring-Holds _ 1 [] _ tt
unary-Ends f (x ∷ st) = requiring-Holds _ 1 (x ∷ st) _ tt

big_mod-Ends : (y x : ℕ) → Ends (big_mod y x)
unfolding big_mod
big_mod-Ends y x = Holds-if _ (x == 0) _ _ tt tt

byte_at-Ends : (y x : ℕ) → Ends (byte_at y x)
unfolding byte_at
byte_at-Ends y x =
    Holds-if (λ r. Unit) (ltb y 32 && ltb y (length (big_bytes x)))
      (index (left_pad_bytes (big_bytes x) 32) y) (ok 0)
      (index-Ends (left_pad_bytes (big_bytes x) 32) y) tt

ternary-Ends : (f : ℕ → ℕ → ℕ) (st : List ℕ) → Ends (ternary f st)
unfolding ternary Stack.pop
ternary-Ends f [] = requiring-Holds _ 3 [] _ tt
ternary-Ends f (x ∷ []) = requiring-Holds _ 3 (x ∷ []) _ tt
ternary-Ends f (x ∷ y ∷ []) = requiring-Holds _ 3 (x ∷ y ∷ []) _ tt
ternary-Ends f (x ∷ y ∷ z ∷ st) =
    requiring-Holds _ 3 (x ∷ y ∷ z ∷ st) _
      (then_any _ (big_mod (f x y) z) _ (big_mod-Ends (f x y) z) (λ r. tt))

pub exec_arith-Ends : (a : Arith) (st : List ℕ) → Ends (exec_arith a st)
unfolding exec_arith
exec_arith-Ends Arith.add st = pure-Ends (λ y x. ensure256 (pos (y + x))) st
exec_arith-Ends Arith.sub st = pure-Ends (λ y x. ensure256 (pos y -ℤ pos x)) st
exec_arith-Ends Arith.mul st = pure-Ends (λ y x. ensure256 (pos (y * x))) st
exec_arith-Ends Arith.div st = pure-Ends (λ y x. ensure256 (pos (if x == 0 then 0 else y / x))) st
exec_arith-Ends Arith.sdiv st = pure-Ends (λ y x. ensure256 (pos (if x == 0 then 0 else y / x))) st
exec_arith-Ends Arith.modulo st = binary-Ends big_mod big_mod-Ends st
exec_arith-Ends Arith.smodulo st = binary-Ends big_mod big_mod-Ends st
exec_arith-Ends Arith.exp st = pure-Ends (λ y x. ensure256 (pos (y ^ x % pow256))) st
exec_arith-Ends Arith.neg st = unary-Ends (λ x. pow256 - x) st
exec_arith-Ends Arith.lt st = pure-Ends (λ y x. truth (ltb y x)) st
exec_arith-Ends Arith.gt st = pure-Ends (λ y x. truth (ltb x y)) st
exec_arith-Ends Arith.slt st = pure-Ends (λ y x. truth (ltb y x)) st
exec_arith-Ends Arith.sgt st = pure-Ends (λ y x. truth (ltb x y)) st
exec_arith-Ends Arith.eq st = pure-Ends (λ y x. truth (x == y)) st
exec_arith-Ends Arith.not st = unary-Ends (λ x. if ltb 0 x then 0 else 1) st
exec_arith-Ends Arith.and st = pure-Ends (λ y x. bit_and y x) st
exec_arith-Ends Arith.or st = pure-Ends (λ y x. bit_or y x) st
exec_arith-Ends Arith.xor st = pure-Ends (λ y x. bit_xor y x) st
exec_arith-Ends Arith.byte st = binary-Ends byte_at byte_at-Ends st
exec_arith-Ends Arith.addmod st = ternary-Ends (λ x y. x + y) st
exec_arith-Ends Arith.mulmod st = ternary-Ends (λ x y. x * y) st
