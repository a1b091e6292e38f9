-- ===== src/Vm/Arithmetic/Words.antt =====
-- What the instructions compute on words of 256 bits.
use thelonious.Base.{
  ℕ, ◌+◌, ◌-◌, ◌*◌, ◌/◌, ◌%◌, ◌<◌, ◌≡◌, refl, arith, ap, ◌∙◌, List, ◌∷◌, length, ◌==◌,
  if◌then◌else◌, true, Outcome, ok, panic, ◌>>=◌, leb,
}
use thelonious.Base.Int.{ℤ, pos, negsuc, ◌-ℤ◌}
use thelonious.Vm.Stack
use thelonious.Vm.Stack.{push, pop, popn, require}
use thelonious.Vm.Arithmetic.{
  add, sub, mul, div, sdiv, modulo, smodulo, pow256, ensure256, binary, unary, big_mod, exec_arith,
}

abbrev pub IsWord : ℕ → Type 0
IsWord x = x < pow256

pub ensure256-IsWord : (z : ℤ) → IsWord (ensure256 z)
unfolding ensure256
ensure256-IsWord (pos n) = omega arith
ensure256-IsWord (negsuc n) = omega arith

two_is_deep : (y x : ℕ) (st : List ℕ) → leb 2 (length (y ∷ x ∷ st)) ≡ true
two_is_deep y x st = ground arith

binary_lem :
    (f : ℕ → ℕ → Outcome ℕ) (y x : ℕ) (st : List ℕ)
    → binary f (y ∷ x ∷ st) ≡ (f y x >>= λ r. ok (r ∷ st))
unfolding binary popn push require Stack.requiring
binary_lem f y x st = rw (two_is_deep y x st)

unary_lem : (f : ℕ → ℕ) (x : ℕ) (st : List ℕ) → unary f (x ∷ st) ≡ ok (f x ∷ st)
unfolding unary pop push require Stack.requiring
unary_lem f x st = let deep : leb 1 (length (x ∷ st)) ≡ true = ground arith in rw deep

difference :
    (y x : ℕ) → IsWord y → IsWord x → ensure256 (pos y -ℤ pos x) ≡ (y + pow256 - x) % pow256
unfolding ensure256 ◌-ℤ◌
difference y x hy hx = ground arith

-- On words, addition and multiplication keep the low 256 bits and subtraction wraps round.
exec_arith_ring :
    (y x : ℕ) (st : List ℕ)
    → IsWord y
    → IsWord x
    → (exec_arith add (y ∷ x ∷ st) ≡ ok ((y + x) % pow256 ∷ st))
      × (exec_arith sub (y ∷ x ∷ st) ≡ ok ((y + pow256 - x) % pow256 ∷ st))
      × (exec_arith mul (y ∷ x ∷ st) ≡ ok ((y * x) % pow256 ∷ st))
unfolding exec_arith ensure256
exec_arith_ring y x st hy hx = (
  binary_lem (λ y x. ok (ensure256 (pos (y + x)))) y x st ∙ refl,
  binary_lem (λ y x. ok (ensure256 (pos y -ℤ pos x))) y x st
      ∙ ap (λ r. ok (r ∷ st)) (difference y x hy hx),
  binary_lem (λ y x. ok (ensure256 (pos (y * x)))) y x st ∙ refl,
)

-- DIV and SDIV by 0 give 0, MOD and SMOD by 0 panic.
exec_arith_zero :
    (y : ℕ) (st : List ℕ)
    → (exec_arith div (y ∷ 0 ∷ st) ≡ ok (0 ∷ st))
      × (exec_arith sdiv (y ∷ 0 ∷ st) ≡ ok (0 ∷ st))
      × (exec_arith modulo (y ∷ 0 ∷ st) ≡ panic)
      × (exec_arith smodulo (y ∷ 0 ∷ st) ≡ panic)
unfolding exec_arith big_mod ensure256
exec_arith_zero y st = (
  binary_lem (λ y x. ok (ensure256 (pos (if x == 0 then 0 else y / x)))) y 0 st,
  binary_lem (λ y x. ok (ensure256 (pos (if x == 0 then 0 else y / x)))) y 0 st,
  binary_lem big_mod y 0 st,
  binary_lem big_mod y 0 st,
)
