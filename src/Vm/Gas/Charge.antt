-- ===== src/Vm/Gas/Charge.antt =====
-- Paying for a step: memory in words of 32 bytes, and the gas that a step takes. The middle of the
-- loop in RunClosure, monkvm/vm.go.
use thelonious.Base.{
  inr, inl, Bool-cases, ◌⊎◌, ℕ, ◌+◌, ◌-◌, ◌^◌, ◌*◌, ◌/◌, ◌%◌, ◌<◌, ◌≤◌, ◌≡◌, arith, List, length,
  ltb, if◌then◌else◌,
}
use thelonious.Vm.Closure.{Closure, use_gas, use_all_gas}
use thelonious.Vm.Gas.{gas_memory}
use thelonious.Vm.Memory
use thelonious.Vm.Memory.Laws.{length-resize}

-- Up to the next multiple of 32; 0 stays.
unfoldable pub round_up : ℕ → ℕ
round_up n = if ltb 0 n then (n + 31) / 32 * 32 else n

-- A unit of gas for each new word.
unfoldable pub expansion_gas : ℕ → ℕ → ℕ
expansion_gas old new = if ltb old new then gas_memory * (new - old) / 32 else 0

pub data Charged : Type 0 where
  paid : List ℕ → Closure → Charged
  out_of_gas : Closure → Charged

-- The gas of the step with that of new memory is used, and memory resized to the low 64 bits of the
-- size, or all gas is taken.
unfoldable pub charge : ℕ → ℕ → List ℕ → Closure → Charged
unfolding use_gas
charge gas new_mem_size mem c =
    let size = round_up new_mem_size in
    let (c', enough) = use_gas (gas + expansion_gas (length mem) size) c in
    if enough then paid (Memory.resize mem (size % 2 ^ 64)) c' else out_of_gas (use_all_gas c')

-- Memory is sized in words: the rounded size is the least multiple of 32 that is no less.
pub round_up_bounds : (n : ℕ) → (n ≤ round_up n) × (round_up n < n + 32) × (round_up n % 32 ≡ 0)
unfolding round_up
round_up_bounds n = ground arith

-- Growing memory in two goes costs what growing it at once costs, between sizes in whole words.
expansion_gas_add :
    (a b c : ℕ)
    → a % 32 ≡ 0
    → b % 32 ≡ 0
    → c % 32 ≡ 0
    → a ≤ b
    → b ≤ c
    → expansion_gas a b + expansion_gas b c ≡ expansion_gas a c
unfolding expansion_gas
expansion_gas_add a b c ha hb hc ab bc = ground arith

-- A step that is paid for takes exactly its gas and that of the new memory; memory gets no shorter,
-- stays in whole words, and is at least as long as asked where the size in whole words is below 2 ^ 64.
pub charge-paid :
    (gas n : ℕ) (mem : List ℕ) (c : Closure) (mem' : List ℕ) (c' : Closure)
    → charge gas n mem c ≡ paid mem' c'
    → length mem % 32 ≡ 0
    → (c'.gas + gas + expansion_gas (length mem) (round_up n) ≡ c.gas)
      × ((2 ^ 64 ≤ round_up n) ⊎ (n ≤ length mem'))
      × (length mem ≤ length mem')
      × (length mem' % 32 ≡ 0)
unfolding charge
charge-paid gas n mem c mem' c' e whole =
    ground (arith, length-resize mem (round_up n % 2 ^ 64), round_up_bounds n)

pub charge_lem :
    (gas n : ℕ) (mem : List ℕ) (c : Closure)
    → let total = gas + expansion_gas (length mem) (round_up n) in
      ((c.gas < total) × (charge gas n mem c ≡ out_of_gas (use_all_gas c)))
      ⊎ ((total ≤ c.gas)
          × (charge gas n mem c
              ≡ paid (Memory.resize mem (round_up n % 2 ^ 64)) (use_gas total c).0))
unfolding charge
charge_lem gas n mem c =
    elim (Bool-cases (ltb c.gas (gas + expansion_gas (length mem) (round_up n)))) [
      | inl b ↦ inl (ground arith, ground arith)
      | inr b ↦ inr (ground arith, ground arith)
    ]
