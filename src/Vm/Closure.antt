-- ===== src/Vm/Closure.antt =====
-- monkvm/closure.go: the code that runs, and its gas. Gas is a big integer that is not negative; the
-- gas used may go below zero, since what a callee returns is subtracted from it. `behind` is what the
-- array of the code has behind it, up to the capacity of the slice.
use thelonious.Base.{
  ◌++◌, ℕ, ◌+◌, ◌-◌, ◌≡◌, refl, arith, List, [], length, ltb, leb, if◌then◌else◌, Bool, true, false,
  ◌||◌, Outcome, ok, slice,
}
use thelonious.Base.Int.{ℤ, pos, ◌+ℤ◌, ◌-ℤ◌}

pub record Closure : Type 0 where
  pub code : List ℕ
  pub behind : List ℕ
  pub gas : ℕ
  pub used_gas : ℤ

unfoldable pub use_gas : ℕ → Closure → Closure × Bool
use_gas amount c =
    if ltb c.gas amount
    then (c, false)
    else (record c { gas = c.gas - amount; used_gas = c.used_gas +ℤ pos amount }, true)

-- `closure.UseGas(closure.Gas)`: the amount is the very number that is lowered to 0, before it is
-- added to the gas used.
unfoldable pub use_all_gas : Closure → Closure
use_all_gas c = record c { gas = 0; used_gas = c.used_gas +ℤ pos 0 }

unfoldable pub return_gas : ℕ → Closure → Closure
return_gas amount c = record c { gas = c.gas + amount; used_gas = c.used_gas -ℤ pos amount }

-- `Gets(x, y)`: the bytes of the code from `x` on, or the number 0, here `none`'s place taken by `[]`.
unfoldable pub gets : Closure → ℕ → ℕ → Outcome (List ℕ)
gets c x y =
    if leb (length c.code) x || leb (length c.code) y
    then ok []
    else slice (c.code ++ c.behind) x (x + y)

-- The gas and the gas used keep their sum, whether the gas suffices or not, and when it is returned;
-- UseGas answers true exactly if the gas suffices.
use_gas_sum :
    (amount : ℕ) (c : Closure)
    → (pos ((use_gas amount c).0.gas) +ℤ (use_gas amount c).0.used_gas ≡ pos c.gas +ℤ c.used_gas)
      × ((use_gas amount c).1 ≡ leb amount c.gas)
      × (pos ((return_gas amount c).gas) +ℤ (return_gas amount c).used_gas
          ≡ pos c.gas +ℤ c.used_gas)
unfolding use_gas return_gas ◌+ℤ◌ ◌-ℤ◌
use_gas_sum amount c = (ground arith, ground arith, ground arith)

-- Taking all the gas leaves none, and does not count it as used: the sum falls by the gas that was left.
use_all_gas_lem :
    (c : Closure)
    → ((use_all_gas c).gas ≡ 0)
      × (pos ((use_all_gas c).gas) +ℤ (use_all_gas c).used_gas +ℤ pos c.gas
          ≡ pos c.gas +ℤ c.used_gas)
unfolding use_all_gas ◌+ℤ◌
use_all_gas_lem c = (refl, ground arith)

-- Code of a single byte is never read: every instruction of it is fetched as no bytes, the number 0.
gets_single : (c : Closure) (x : ℕ) → length c.code ≡ 1 → gets c x 1 ≡ ok []
unfolding gets
gets_single c x h = ground arith
