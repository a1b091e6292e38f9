-- ===== src/Vm/Gas.antt =====
-- The head of the loop in RunClosure, monkvm/vm.go: what a step costs, and how far memory must reach.
pub mod Charge
use thelonious.Base.{
  drop, ℕ, zero, suc, ◌+◌, ◌-◌, ◌*◌, ◌/◌, ◌<◌, List, [], ◌∷◌, length, ltb, leb, ◌==◌, if◌then◌else◌,
  Bool, true, false, ◌&&◌, not, Outcome, ok, panic, out_of_fuel, ◌>>=◌, index, Option, none, some,
  max,
}
use thelonious.Rlp.Values.{
  Value, Values, nil, ptr, int, uint, byte, big, big_nil, bytes, str, slice, other, empty, item,
}
use thelonious.Rlp.Decode.{decode}
use thelonious.Vm.Stack
use thelonious.Vm.Memory

-- The instructions that the switch on the cost names; all others are `plain`.
pub data CostOp : Type 0 where
  stop suicide sload sstore balance nonce mstore mload mstore8 return sha3 calldatacopy codecopy
        extcodecopy :
      CostOp
  call create rlpdecode rlpencode plain : CostOp

-- monkvm/common.go
abbrev pub gas_step : ℕ
gas_step = 1

abbrev pub gas_sha : ℕ
gas_sha = 20

abbrev pub gas_sload : ℕ
gas_sload = 20

abbrev pub gas_sstore : ℕ
gas_sstore = 100

abbrev pub gas_balance : ℕ
gas_balance = 20

abbrev pub gas_nonce : ℕ
gas_nonce = 20

abbrev pub gas_create : ℕ
gas_create = 100

abbrev pub gas_call : ℕ
gas_call = 20

abbrev pub gas_memory : ℕ
gas_memory = 1

-- `refused` is a return with an error.
pub data Cost : Type 0 where
  cost : ℕ → ℕ → Cost
  refused : Cost

unfoldable pub calc_mem_size : ℕ → ℕ → ℕ
calc_mem_size off l = if l == 0 then 0 else off + l

-- The memory from an offset of the stack over a size of it, counted from the top.
unfoldable pub reach : ℕ → List ℕ → ℕ → ℕ → Outcome Cost
unfolding calc_mem_size
reach gas st off l = do o ← index st off; n ← index st l; ok (cost gas (calc_mem_size o n))

-- Storing to an empty place, clearing a full one, and all else.
unfoldable pub sstore_mult : ℕ → ℕ → ℕ
sstore_mult val y =
    if val == 0 && not (y == 0) then 2 else if not (val == 0) && y == 0 then 0 else 1

abbrev pub count : Values → ℕ
count empty = 0
count (item v vs) = suc (count vs)

-- `decoded.([]interface{})`, and 32 bytes for each item.
unfoldable pub rlpdecode_cost : ℕ → Value → Cost
unfolding calc_mem_size
rlpdecode_cost place (slice vs) = cost gas_step (calc_mem_size place (count vs * 32))
rlpdecode_cost place nil = refused
rlpdecode_cost place (ptr v) = refused
rlpdecode_cost place (int z) = refused
rlpdecode_cost place (uint n) = refused
rlpdecode_cost place (byte n) = refused
rlpdecode_cost place (big z) = refused
rlpdecode_cost place big_nil = refused
rlpdecode_cost place (bytes t) = refused
rlpdecode_cost place (str t) = refused
rlpdecode_cost place other = refused

-- A nil slice, as Memory.Get gives it, has no bytes.
abbrev pub or_empty : Option (List ℕ) → List ℕ
or_empty none = []
or_empty (some bs) = bs

-- What `append` reserves behind memory is no part of it here. `storage` is what GetStorage holds as a number, and `may_create` that DougValidate has no error or
-- the block is the first. The stack has its top first.
module _ (storage : ℕ → ℕ) (may_create : Bool) (mem : List ℕ) where
  unfoldable pub step_cost : CostOp → List ℕ → Outcome Cost
  step_cost stop st = ok (cost 0 0)
  step_cost suicide st = ok (cost 0 0)
  step_cost sload st = ok (cost gas_sload 0)
  step_cost sstore st =
      Stack.peekn st >>= λ (y, x). ok (cost (sstore_mult (storage x) y * gas_sstore) 0)
  step_cost balance st = ok (cost gas_balance 0)
  step_cost nonce st = ok (cost gas_nonce 0)
  step_cost mstore st =
      Stack.requiring 2 st (index st 0 >>= λ o. ok (cost gas_step (calc_mem_size o 32)))
  step_cost mload st =
      Stack.requiring 1 st (index st 0 >>= λ o. ok (cost gas_step (calc_mem_size o 32)))
  step_cost mstore8 st =
      Stack.requiring 2 st (index st 0 >>= λ o. ok (cost gas_step (calc_mem_size o 1)))
  step_cost return st = Stack.requiring 2 st (reach gas_step st 0 1)
  step_cost sha3 st = Stack.requiring 2 st (reach gas_sha st 0 1)
  step_cost calldatacopy st = Stack.requiring 2 st (reach gas_step st 0 2)
  step_cost codecopy st = Stack.requiring 3 st (reach gas_step st 0 2)
  step_cost extcodecopy st = Stack.requiring 4 st (reach gas_step st 1 3)
  step_cost call st = Stack.requiring 7 st do
    forwarded ← index st 0
    out_off ← index st 5
    out_size ← index st 6
    in_off ← index st 3
    in_size ← index st 4
    ok (
        cost (gas_call + forwarded)
          (max (calc_mem_size out_off out_size) (calc_mem_size in_off in_size)))
  step_cost create st =
      if may_create then Stack.requiring 3 st (reach gas_create st 1 2) else ok refused
  step_cost rlpdecode st = Stack.requiring 3 st do
    (size, offset) ← Stack.peekn st
    let got = or_empty (Memory.get mem offset size)
    (decoded, _) ← decode (length got) (drop offset mem) 0
    place ← index st 2
    ok (rlpdecode_cost place decoded)
  step_cost rlpencode st = Stack.requiring 3 st (ok (cost gas_step 0))
  step_cost plain st = ok (cost gas_step 0)
