-- ===== src/Vm/Loop.antt =====
-- The loop of RunClosure, monkvm/vm.go: an instruction is fetched, priced, paid for and executed. The
-- loop leaves off at the instructions that need the state, the block, a hash function or another
-- closure: `left` has the byte of such an instruction and what there was before it.
pub mod Words
pub mod Ends
pub mod Names
use thelonious.Base.{
  ℕ, zero, suc, ◌+◌, ◌-◌, List, [], ◌∷◌, ◌++◌, length, ltb, leb, ◌==◌, if◌then◌else◌, Bool, true,
  false, ◌&&◌, not, Outcome, ok, panic, out_of_fuel, ◌>>=◌, index, take, drop, get_or,
}
use thelonious.Util.Big.{set_bytes, big_bytes}
use thelonious.Vm.Stack
use thelonious.Vm.Memory
use thelonious.Vm.Closure.{Closure, gets}
use thelonious.Vm.Arithmetic.{Arith, exec_arith}
use thelonious.Vm.Gas.{CostOp, Cost, cost, refused, step_cost, or_empty}
use thelonious.Vm.Gas.Charge.{Charged, paid, out_of_gas, charge}
use thelonious.Vm.Machine.{
  Machine, Instr, push_value, pop_value, advance, int64, exec, exec_jump, exec_jumpi,
}

pub data Op : Type 0 where
  word_op : Arith → Op
  move_op : Instr → Op
  jump_op jumpi_op return_op stop_op log_op invalid_op outer_op : Op

-- 0x01 to 0x0f, and 0x10 to 0x15.
abbrev pub word_ops : List Arith
word_ops =
    Arith.add ∷ Arith.mul ∷ Arith.sub ∷ Arith.div ∷ Arith.sdiv ∷ Arith.modulo ∷ Arith.smodulo
    ∷ Arith.exp ∷ Arith.neg ∷ Arith.lt ∷ Arith.gt ∷ Arith.slt ∷ Arith.sgt ∷ Arith.eq ∷ Arith.not
    ∷ []

abbrev pub bit_ops : List Arith
bit_ops = Arith.and ∷ Arith.or ∷ Arith.xor ∷ Arith.byte ∷ Arith.addmod ∷ Arith.mulmod ∷ []

-- 0x30 to 0x3f, of which five need no more than the call.
abbrev pub closure_ops : List Op
closure_ops =
    outer_op
    ∷ outer_op
    ∷ outer_op
    ∷ outer_op
    ∷ outer_op
    ∷ move_op Instr.calldataload
    ∷ move_op Instr.calldatasize
    ∷ move_op Instr.calldatacopy
    ∷ move_op Instr.codesize
    ∷ move_op Instr.codecopy
    ∷ outer_op
    ∷ outer_op
    ∷ outer_op
    ∷ outer_op
    ∷ outer_op
    ∷ outer_op
    ∷ []

-- 0x50 to 0x5c; 0x51 and 0x52 are not used.
abbrev pub stack_ops : List Op
stack_ops =
    move_op Instr.pop
    ∷ invalid_op
    ∷ invalid_op
    ∷ move_op Instr.mload
    ∷ move_op Instr.mstore
    ∷ move_op Instr.mstore8
    ∷ outer_op
    ∷ outer_op
    ∷ jump_op
    ∷ jumpi_op
    ∷ move_op Instr.pc_op
    ∷ move_op Instr.msize
    ∷ outer_op
    ∷ []

-- 0xf0 to 0xf4, and the last three bytes.
abbrev pub call_ops : List Op
call_ops = outer_op ∷ outer_op ∷ return_op ∷ outer_op ∷ outer_op ∷ []

abbrev pub last_ops : List Op
last_ops = log_op ∷ log_op ∷ outer_op ∷ []

-- The cases of the second switch.
unfoldable pub op_of : ℕ → Op
op_of b =
    if b == 0
    then stop_op
    else if ltb b 0x10
    then word_op (get_or word_ops (b - 1) Arith.add)
    else if ltb b 0x16
    then word_op (get_or bit_ops (b - 0x10) Arith.and)
    else if ltb b 0x20
    then invalid_op
    else if ltb b 0x23
    then outer_op
    else if ltb b 0x30
    then invalid_op
    else if ltb b 0x40
    then get_or closure_ops (b - 0x30) outer_op
    else if ltb b 0x47
    then outer_op
    else if ltb b 0x50
    then invalid_op
    else if ltb b 0x60
    then get_or stack_ops (b - 0x50) invalid_op
    else if ltb b 0x80
    then move_op (Instr.push (b - 0x5f))
    else if ltb b 0x90
    then move_op (Instr.dup (b - 0x7f))
    else if ltb b 0xa0
    then move_op (Instr.swap (b - 0x8f))
    else if ltb b 0xf0
    then invalid_op
    else if ltb b 0xfd
    then get_or call_ops (b - 0xf0) invalid_op
    else get_or last_ops (b - 0xfd) invalid_op

-- How the first switch names it.
abbrev pub cost_op : Op → CostOp
cost_op (word_op a) = CostOp.plain
cost_op (move_op Instr.mload) = CostOp.mload
cost_op (move_op Instr.mstore) = CostOp.mstore
cost_op (move_op Instr.mstore8) = CostOp.mstore8
cost_op (move_op Instr.calldatacopy) = CostOp.calldatacopy
cost_op (move_op Instr.codecopy) = CostOp.codecopy
cost_op (move_op i) = CostOp.plain
cost_op return_op = CostOp.return
cost_op stop_op = CostOp.stop
cost_op op = CostOp.plain

pub record Frame : Type 0 where
  pub machine : Machine
  pub closure : Closure

-- What a turn of the loop comes to: another turn, a return with or without an error, or an instruction
-- that is not modelled.
pub data Step : Type 0 where
  goes : Frame → Step
  returned : List ℕ → Frame → Step
  failed : Frame → Step
  left : ℕ → Frame → Step

unfoldable pub exec_words : Arith → Machine → Outcome Machine
unfolding exec_arith
exec_words a m = exec_arith a m.stack >>= λ st. ok (record m { stack = st })

-- `closure.Get(pc)` and its Uint: 0 where the code has ended.
unfoldable pub fetch : Frame → Outcome ℕ
unfolding int64 gets
fetch f = do at ← int64 f.machine.pc; bytes ← gets f.closure at 1; ok (set_bytes bytes)

unfoldable pub exec_return : Frame → Outcome Step
unfolding pop_value int64 Memory.get
exec_return f = Stack.requiring 2 f.machine.stack (
    pop_value f.machine >>= λ (offset, m). pop_value m >>= λ (size, m'). int64 offset >>= λ o.
    int64 size >>= λ n.
    ok (returned (or_empty (Memory.get m'.mem o n)) (record f { machine = m' })))

-- The second switch.
unfoldable pub perform : List ℕ → ℕ → Op → Frame → Outcome Step
unfolding exec_words exec exec_jump exec_jumpi advance exec_return
perform args b (word_op a) f =
    exec_words a f.machine >>= λ m. ok (goes (record f { machine = advance 1 m }))
perform args b (move_op i) f =
    exec f.closure args i f.machine >>= λ m. ok (goes (record f { machine = m }))
perform args b jump_op f = exec_jump f.machine >>= λ m. ok (goes (record f { machine = m }))
perform args b jumpi_op f = exec_jumpi f.machine >>= λ m. ok (goes (record f { machine = m }))
perform args b return_op f = exec_return f
perform args b stop_op f = ok (returned [] f)
perform args b log_op f = ok (goes (record f { machine = advance 1 f.machine }))
perform args b invalid_op f = ok (failed f)
perform args b outer_op f = ok (left b f)

-- What is paid for is done.
unfoldable pub pay : List ℕ → ℕ → Op → Frame → Cost → Outcome Step
unfolding charge perform
pay args b op f refused = ok (failed f)
pay args b op f (cost gas size) = elim (charge gas size f.machine.mem f.closure) [
  | out_of_gas c ↦ ok (failed (record f { closure = c }))
  | paid mem c ↦
      perform args b op (record { machine = record f.machine { mem = mem }; closure = c })
]

unfoldable pub is_outer : Op → Bool
is_outer outer_op = true
is_outer op = false

-- A turn of the loop. The price of these instructions depends on no storage and on no permission.
unfoldable pub step : List ℕ → Frame → Outcome Step
unfolding fetch op_of step_cost pay is_outer
step args f = do
  b ← fetch f
  let op = op_of b
  if is_outer op
      then ok (left b f)
      else (step_cost (λ x. 0) false f.machine.mem (cost_op op) f.machine.stack >>= λ c.
          pay args b op f c)

unfoldable pub run : ℕ → List ℕ → Frame → Outcome Step
unfolding step
run zero args f = out_of_fuel
run (suc n) args f = step args f >>= λ s. elim s [
  | goes f' ↦ run n args f'
  | returned bytes f' ↦ ok (returned bytes f')
  | failed f' ↦ ok (failed f')
  | left b f' ↦ ok (left b f')
]

abbrev pub first_frame : Closure → Frame
first_frame c = record { machine = record { stack = []; pc = 0; mem = [] }; closure = c }

-- RunClosure: code that is empty is not run. A turn that leads to another takes gas, so that there
-- are no more turns than gas, and one.
unfoldable pub run_closure : List ℕ → Closure → Outcome Step
unfolding run
run_closure args c =
    let start = first_frame c in
    let r = run (c.gas + 1) args start in if length c.code == 0 then ok (returned [] start) else r
