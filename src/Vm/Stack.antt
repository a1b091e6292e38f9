-- ===== src/Vm/Stack.antt =====
-- monkvm/stack.go, the type Stack. The list has the top of the stack first; the slice `data` has it
-- last. Values are big integers that are not negative. An index out of range panics.
use thelonious.Base.{
  ℕ, suc, ◌-◌, ◌<◌, ◌≡◌, refl, arith, List, [], ◌∷◌, length, leb, if◌then◌else◌, Bool, Outcome, ok,
  panic, ◌>>=◌, Option, none, some, set, take, index, index_inv, index-set_self, set-set, set-index,
  inl, inr, ap, ◌∙◌,
}

unfoldable pub pop : List ℕ → Outcome (ℕ × List ℕ)
pop [] = panic
pop (x ∷ st) = ok (x, st)

-- Both answers come in the order of the slice: the lower element first.
unfoldable pub popn : List ℕ → Outcome (ℕ × ℕ × List ℕ)
popn [] = panic
popn (y ∷ []) = panic
popn (y ∷ x ∷ st) = ok (x, y, st)

unfoldable pub peek : List ℕ → Outcome ℕ
peek st = index st 0

unfoldable pub peekn : List ℕ → Outcome (ℕ × ℕ)
peekn [] = panic
peekn (y ∷ []) = panic
peekn (y ∷ x ∷ st) = ok (x, y)

unfoldable pub push : ℕ → List ℕ → List ℕ
push d st = d ∷ st

-- `data[len-n]` and the top change places; the answer is the new pair of them.
unfoldable pub swapn : ℕ → List ℕ → Outcome (ℕ × ℕ × List ℕ)
swapn n st = do
  deep ← index st (n - 1)
  top ← index st 0
  ok (top, deep, set (set st (n - 1) top) 0 deep)

unfoldable pub dupn : ℕ → List ℕ → Outcome (List ℕ)
unfolding push
dupn n st = index st (n - 1) >>= λ v. ok (push v st)

-- The `amount` topmost values in the order of the slice reversed; `none` is nil.
unfoldable pub get : ℕ → List ℕ → Option (List ℕ)
get amount st = if leb amount (length st) then some (take amount st) else none

-- What `require` checks in the interpreter.
unfoldable pub require : ℕ → List ℕ → Bool
require m st = leb m (length st)

-- `require(m)`, and then the rest of the instruction: the panic of `require` ends it.
unfoldable pub requiring {ℓ} : {A : Type ℓ} → ℕ → List ℕ → Outcome A → Outcome A
unfolding require
requiring m st k = if require m st then k else panic

-- Popping gives back what was pushed, one value or two.
pub pop-push :
    (x y : ℕ) (st : List ℕ)
    → (pop (push x st) ≡ ok (x, st)) × (popn (push y (push x st)) ≡ ok (x, y, st))
unfolding pop popn push
pop-push x y st = (refl, refl)

-- A swap below the top, where the stack is deep enough.
swapn_lem :
    (n x y : ℕ) (st : List ℕ)
    → index st n ≡ ok y
    → swapn (suc (suc n)) (x ∷ st) ≡ ok (x, y, y ∷ set st n x)
unfolding swapn
swapn_lem n x y st e = let below : suc (suc n) - 1 ≡ suc n = omega arith in rw below (rw e)

-- Swapping twice with the same element gives the stack back, where the stack has the element.
swapn-swapn :
    (n : ℕ) (st : List ℕ)
    → suc n < length st
    → (swapn (suc (suc n)) st >>= λ (a, b, st').
        swapn (suc (suc n)) st' >>= λ (c, d, st''). ok st'')
      ≡ ok st
swapn-swapn n [] h = elim h [ ]
swapn-swapn n (x ∷ st) h = elim (index_inv st n) [
  | inl (_, short) ↦ absurd (omega arith)
  | inr (y, e, deep) ↦ rw (swapn_lem n x y st e) (
      rw (swapn_lem n y x (set st n x) (index-set_self st n x deep))
        (ap (λ r. ok (x ∷ r)) (set-set st n x y ∙ set-index st n y e)))
]

-- A duplicate of the nth value stands on top, and the rest is the old stack.
pub peek-dupn : (n v : ℕ) (st : List ℕ) → index st n ≡ ok v → (dupn (suc n) st >>= pop) ≡ ok (v, st)
unfolding dupn push pop
peek-dupn n v st e = let below : suc n - 1 ≡ n = omega arith in rw below (rw e)
