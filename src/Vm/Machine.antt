-- ===== src/Vm/Machine.antt =====
-- The instructions of RunClosure, monkvm/vm.go, that move words between the stack, memory, the
-- call's data and the code, and the jumps. Stack.Push copies the number that it is given, so that each
-- place of the stack, and `pc`, has a number of its own, and a number stands for its pointer. A memory
-- that Go cannot allocate is not modelled.
pub mod Ends
pub mod Memories
use thelonious.Base.{
  ℕ, zero, suc, ◌+◌, ◌-◌, ◌*◌, ◌/◌, ◌%◌, ◌^◌, List, [], ◌∷◌, ◌++◌, length, ltb, leb, ◌==◌, ◌&&◌,
  if◌then◌else◌, Bool, true, false, Outcome, ok, panic, ◌>>=◌, index, slice, set, replicate, min,
  Option, none, some,
}
use thelonious.Util.Big.{set_bytes}
use thelonious.Util.Bytes.{big_to_bytes, right_pad_bytes}
use thelonious.Vm.Stack
use thelonious.Vm.Memory
use thelonious.Vm.Closure.{Closure, gets}
use thelonious.Vm.Gas.{or_empty}

pub record Machine : Type 0 where
  pub stack : List ℕ
  pub pc : ℕ
  pub mem : List ℕ

pub data Instr : Type 0 where
  push dup swap : ℕ → Instr
  pop mload mstore mstore8 pc_op msize calldataload calldatasize calldatacopy codesize codecopy :
      Instr

-- `stack.Push`
unfoldable pub push_value : ℕ → Machine → Machine
push_value v m = record m { stack = Stack.push v m.stack }

-- `stack.Pop`
unfoldable pub pop_value : Machine → Outcome (ℕ × Machine)
pop_value m = Stack.pop m.stack >>= λ (v, st). ok (v, record m { stack = st })

-- `pc.Add(pc, n)`
unfoldable pub advance : ℕ → Machine → Machine
advance n m = record m { pc = m.pc + n }

-- big.Int's Int64, the low 64 bits; a negative number panics wherever the instructions use it.
unfoldable pub int64 : ℕ → Outcome ℕ
int64 v = let r = v % 2 ^ 64 in if ltb r (2 ^ 63) then ok r else panic

-- Memory.Set where `offset + size` may overflow: the slice from a positive to a negative index panics.
unfoldable pub mem_set : ℕ → ℕ → List ℕ → Machine → Outcome Machine
mem_set offset size bytes m =
    if ltb (offset + size) (2 ^ 63)
    then ok (record m { mem = Memory.set m.mem offset size bytes })
    else panic

-- The source of CALLDATACOPY and CODECOPY, with the `l` that is copied. `cOff+l` may overflow.
unfoldable pub copied : List ℕ → ℕ → ℕ → Outcome (ℕ × List ℕ)
copied code c_off l =
    if ltb (length code) c_off
    then ok (0, [])
    else if leb (2 ^ 63) (c_off + l)
    then panic
    else if ltb (length code) (c_off + l)
    then ok (0, [])
    else (slice code c_off (c_off + l) >>= λ bytes. ok (l, bytes))

unfoldable pub exec_copy : List ℕ → Machine → Outcome Machine
unfolding pop_value int64 copied mem_set
exec_copy code m = do
  (x, m) ← pop_value m
  m_off ← int64 x
  (y, m) ← pop_value m
  c_off ← int64 y
  (z, m) ← pop_value m
  l ← int64 z
  (l, bytes) ← copied code c_off l
  mem_set m_off l bytes m

-- `data` of 32 zeros, and a copy of the call's data from `offset` on.
unfoldable pub load_data : List ℕ → ℕ → Outcome ℕ
load_data args offset =
    if leb offset (length args)
    then (slice args offset (min (offset + 32) (length args)) >>= λ bytes.
        ok (set_bytes (right_pad_bytes bytes 32)))
    else ok 0

unfoldable pub exec_push : ℕ → Closure → Machine → Outcome Machine
unfolding advance push_value int64
exec_push a c m = do
  at ← int64 (m.pc + 1)
  bytes ← gets c at a
  ok (advance (a - 1) (push_value (set_bytes bytes) (advance 1 m)))

-- A duplicate that two POPs follow is printed, by toValue, which looks at its first byte: 0 has none.
unfoldable pub print_dup : Closure → ℕ → ℕ → Outcome ℕ
unfolding int64 gets
print_dup c p v = do
  x ← int64 (p + 1)
  a ← gets c x 1
  if set_bytes a == 0x50
      then (int64 (p + 2) >>= λ y.
          gets c y 1 >>= λ b. if set_bytes b == 0x50 && v == 0 then panic else ok v)
      else ok v

-- What an instruction that is no jump does before `pc.Add(pc, 1)`.
unfoldable pub exec_body : Closure → List ℕ → Instr → Machine → Outcome Machine
unfolding pop_value push_value int64 exec_push exec_copy load_data mem_set print_dup
exec_body c args (push a) m = exec_push a c m
exec_body c args pop m = Stack.requiring 1 m.stack (pop_value m >>= λ (x, m'). ok m')
exec_body c args (dup n) m = do
  st ← Stack.dupn n m.stack
  v ← Stack.peek st
  _ ← print_dup c m.pc v
  ok (record m { stack = st })
exec_body c args (swap n) m =
    Stack.swapn (suc n) m.stack >>= λ (x, y, st). ok (record m { stack = st })
exec_body c args mload m = Stack.requiring 1 m.stack (
    pop_value m >>= λ (x, m').
    int64 x >>= λ offset. ok (push_value (set_bytes (or_empty (Memory.get m'.mem offset 32))) m'))
exec_body c args mstore m = Stack.requiring 2 m.stack (
    pop_value m >>= λ (start, m'). pop_value m' >>= λ (val, m'').
    int64 start >>= λ offset. mem_set offset 32 (big_to_bytes val 256) m'')
exec_body c args mstore8 m = Stack.requiring 2 m.stack (
    pop_value m >>= λ (off, m'). pop_value m' >>= λ (val, m''). int64 off >>= λ offset.
    index m''.mem offset >>= λ old. ok (record m'' { mem = set m''.mem offset (val % 256) }))
exec_body c args pc_op m = ok (push_value m.pc m)
exec_body c args msize m = ok (push_value (length m.mem) m)
exec_body c args calldataload m =
    Stack.requiring 1 m.stack
      (pop_value m >>= λ (x, m'). load_data args x >>= λ v. ok (push_value v m'))
exec_body c args calldatasize m = ok (push_value (length args) m)
exec_body c args calldatacopy m = exec_copy args m
exec_body c args codesize m = ok (push_value (length c.code) m)
exec_body c args codecopy m = exec_copy c.code m

-- `pc = stack.Pop()`
unfoldable pub exec_jump : Machine → Outcome Machine
exec_jump m =
    Stack.requiring 1 m.stack
      (Stack.pop m.stack >>= λ (place, st). ok (record m { stack = st; pc = place }))

unfoldable pub exec_jumpi : Machine → Outcome Machine
unfolding advance
exec_jumpi m = Stack.requiring 2 m.stack (
    Stack.popn m.stack >>= λ (cond, place, st).
    if leb 1 cond
    then ok (record m { stack = st; pc = place })
    else ok (advance 1 (record m { stack = st })))

unfoldable pub exec : Closure → List ℕ → Instr → Machine → Outcome Machine
unfolding exec_body advance
exec c args i m = exec_body c args i m >>= λ m'. ok (advance 1 m')
