-- ===== src/Vm/Arithmetic/Kept.antt =====
-- What the instructions 0x01 to 0x15 leave on a stack of words of 256 bits.
use thelonious.Base.{
  ℕ, ◌+◌, ◌-◌, ◌*◌, ◌/◌, ◌^◌, ◌%◌, ◌≡◌, inl, inr, arith, ap, List, [], ◌∷◌, All, ◌==◌, ltb,
  if◌then◌else◌, Bool, true, false, Bool-cases, Outcome, ok, ◌>>=◌, Holds, Holds->>=,
}
use thelonious.Base.Int.{pos, ◌-ℤ◌}
use thelonious.Vm.Stack
use thelonious.Vm.Arithmetic.{Arith, exec_arith, binary, unary, ternary, pow256, truth, big_mod}
use thelonious.Vm.Arithmetic.Words.{IsWord, ensure256-IsWord}
use thelonious.Vm.Machine.Ends.{requiring-Holds, Holds-if}

-- The instructions on single bits and bytes.
abbrev is_bitwise : Arith → Bool
is_bitwise Arith.and = true
is_bitwise Arith.or = true
is_bitwise Arith.xor = true
is_bitwise Arith.byte = true
is_bitwise a = false

abbrev IsWords : List ℕ → Type 0
IsWords st = All IsWord st

truth-IsWord : (b : Bool) → IsWord (truth b)
truth-IsWord true = omega arith
truth-IsWord false = omega arith

binary-IsWords :
    (f : ℕ → ℕ → Outcome ℕ)
    → ((y x : ℕ) → Holds IsWord (f y x))
    → (st : List ℕ) → IsWords st
    → Holds IsWords (binary f st)
unfolding binary
binary-IsWords f h st w = requiring-Holds IsWords 2 st _ (two st w)
  where
    two :
        (st' : List ℕ)
        → IsWords st'
        → Holds IsWords (Stack.popn st' >>= λ (x, y, rest). f y x >>= λ r. ok (Stack.push r rest))
    two [] k = unfold Stack.popn in tt
    two (y ∷ []) k = unfold Stack.popn in tt
    two (y ∷ x ∷ rest) k =
        unfold Stack.popn Stack.push in
        Holds->>= IsWord IsWords (f y x) _ (h y x) (λ r q. (q, k.1.1))

pure-IsWords :
    (g : ℕ → ℕ → ℕ)
    → ((y x : ℕ) → IsWord (g y x))
    → (st : List ℕ) → IsWords st
    → Holds IsWords (binary (λ y x. ok (g y x)) st)
pure-IsWords g h st w = binary-IsWords (λ y x. ok (g y x)) h st w

big_mod-IsWord : (y x : ℕ) → Holds IsWord (big_mod y x)
unfolding big_mod
big_mod-IsWord y x = Holds-if IsWord (x == 0) _ _ tt (ensure256-IsWord (pos (y % x)))

ternary-IsWords : (f : ℕ → ℕ → ℕ) (st : List ℕ) → IsWords st → Holds IsWords (ternary f st)
unfolding ternary Stack.pop Stack.push
ternary-IsWords f [] w = requiring-Holds IsWords 3 [] _ tt
ternary-IsWords f (x ∷ []) w = requiring-Holds IsWords 3 (x ∷ []) _ tt
ternary-IsWords f (x ∷ y ∷ []) w = requiring-Holds IsWords 3 (x ∷ y ∷ []) _ tt
ternary-IsWords f (x ∷ y ∷ z ∷ st) w = requiring-Holds IsWords 3 (x ∷ y ∷ z ∷ st) _ (
    Holds->>= IsWord IsWords (big_mod (f x y) z) _ (big_mod-IsWord (f x y) z) (λ r q. (q, w.1.1.1)))

-- The one exception.
abbrev is_neg_of_zero : Arith → ℕ → Bool
is_neg_of_zero Arith.neg x = x == 0
is_neg_of_zero a x = false

abbrev pub IsLeft : Bool → List ℕ → List ℕ → Type 0
IsLeft true st st' = st' ≡ pow256 ∷ st
IsLeft false st st' = IsWords st'

negated : (x : ℕ) (st : List ℕ) → IsWords (x ∷ st) → IsLeft (x == 0) st ((pow256 - x) ∷ st)
negated x st (w, ws) = elim (Bool-cases (x == 0)) [
  | inl e ↦
      let zero_top : x ≡ 0 = ground (arith, e) in
      let left : pow256 - x ≡ pow256 = omega (arith, zero_top) in
      rw (e, IsLeft) (ap (λ n. n ∷ st) left)
  | inr e ↦ let low : IsWord (pow256 - x) = ground (arith, e) in rw (e, IsLeft) (low, ws)
]

-- On a stack of words every instruction from 0x01 to 0x15 but the bitwise ones and BYTE panics or
-- leaves words, except that NEG of 0 leaves 2 ^ 256, which is none.
pub exec_arith-IsLeft :
    (a : Arith) (x : ℕ) (st : List ℕ)
    → is_bitwise a ≡ false
    → IsWords (x ∷ st)
    → Holds (IsLeft (is_neg_of_zero a x) st) (exec_arith a (x ∷ st))
unfolding exec_arith unary Stack.pop Stack.push
exec_arith-IsLeft Arith.neg x st b w = requiring-Holds _ 1 (x ∷ st) _ (negated x st w)
exec_arith-IsLeft Arith.not x st b w = requiring-Holds _ 1 (x ∷ st) _ (flag (ltb 0 x), w.1)
  where
    flag : (b : Bool) → IsWord (if b then 0 else 1)
    flag true = omega arith
    flag false = omega arith
exec_arith-IsLeft Arith.add x st b w =
    pure-IsWords _ (λ y x. ensure256-IsWord (pos (y + x))) (x ∷ st) w
exec_arith-IsLeft Arith.sub x st b w =
    pure-IsWords _ (λ y x. ensure256-IsWord (pos y -ℤ pos x)) (x ∷ st) w
exec_arith-IsLeft Arith.mul x st b w =
    pure-IsWords _ (λ y x. ensure256-IsWord (pos (y * x))) (x ∷ st) w
exec_arith-IsLeft Arith.div x st b w =
    pure-IsWords _ (λ y x. ensure256-IsWord (pos (if x == 0 then 0 else y / x))) (x ∷ st) w
exec_arith-IsLeft Arith.sdiv x st b w =
    pure-IsWords _ (λ y x. ensure256-IsWord (pos (if x == 0 then 0 else y / x))) (x ∷ st) w
exec_arith-IsLeft Arith.modulo x st b w = binary-IsWords big_mod big_mod-IsWord (x ∷ st) w
exec_arith-IsLeft Arith.smodulo x st b w = binary-IsWords big_mod big_mod-IsWord (x ∷ st) w
exec_arith-IsLeft Arith.exp x st b w =
    pure-IsWords _ (λ y x. ensure256-IsWord (pos (y ^ x % pow256))) (x ∷ st) w
exec_arith-IsLeft Arith.lt x st b w = pure-IsWords _ (λ y x. truth-IsWord (ltb y x)) (x ∷ st) w
exec_arith-IsLeft Arith.gt x st b w = pure-IsWords _ (λ y x. truth-IsWord (ltb x y)) (x ∷ st) w
exec_arith-IsLeft Arith.slt x st b w = pure-IsWords _ (λ y x. truth-IsWord (ltb y x)) (x ∷ st) w
exec_arith-IsLeft Arith.sgt x st b w = pure-IsWords _ (λ y x. truth-IsWord (ltb x y)) (x ∷ st) w
exec_arith-IsLeft Arith.eq x st b w = pure-IsWords _ (λ y x. truth-IsWord (x == y)) (x ∷ st) w
exec_arith-IsLeft Arith.addmod x st b w = ternary-IsWords (λ x y. x + y) (x ∷ st) w
exec_arith-IsLeft Arith.mulmod x st b w = ternary-IsWords (λ x y. x * y) (x ∷ st) w
exec_arith-IsLeft Arith.and x st b w = let f : true ≡ false = b in absurd (cc)
exec_arith-IsLeft Arith.or x st b w = let f : true ≡ false = b in absurd (cc)
exec_arith-IsLeft Arith.xor x st b w = let f : true ≡ false = b in absurd (cc)
exec_arith-IsLeft Arith.byte x st b w = let f : true ≡ false = b in absurd (cc)
