-- ===== src/Tests/Vm.antt =====
-- The virtual machine at concrete inputs.
use thelonious.Base.{
  true, Holds, ℕ, ◌+◌, ◌^◌, ◌%◌, ◌≤◌, ◌≡◌, ◌⊎◌, refl, arith, List, [], ◌∷◌, length, some, ok, slice,
  ◌>>=◌,
}
use thelonious.Util.Big.{from_be}
use thelonious.Base.Int.{pos}
use Prim.Native.String.{String}
use thelonious.Vm.Memory
use thelonious.Vm.Closure.{Closure, use_gas}
use thelonious.Vm.Gas.Charge.{
  round_up, expansion_gas, Charged, charge, paid, out_of_gas, charge-paid,
}
use thelonious.Vm.Opcodes.{op_codes, lookup_name}
use thelonious.Vm.Machine.{Machine, exec, exec_jump, advance, push_value, dup, pc_op, mload, mstore}
use thelonious.Vm.Arithmetic.{neg, exec_arith}
use thelonious.Vm.Arithmetic.Kept.{IsLeft, exec_arith-IsLeft}
use thelonious.Vm.Machine.Memories.{exec-mload-mstore}
use thelonious.Vm.Stack

abbrev three_words : List ℕ
three_words = 7 ∷ 8 ∷ 9 ∷ []

abbrev two_bytes : List ℕ
two_bytes = 5 ∷ 6 ∷ []

abbrev closure : Closure
closure = record { code = 0x60 ∷ 1 ∷ 0 ∷ []; behind = []; gas = 10; used_gas = pos 3 }

abbrev stop_only : Closure
stop_only = record { code = 0x30 ∷ []; behind = []; gas = 10; used_gas = pos 0 }

charged : charge 1 40 [] closure ≡ paid (Memory.resize [] 64) (use_gas 3 closure).0
unfolding charge use_gas round_up expansion_gas Memory.resize
charged = refl

charge-paid_example :
    ((use_gas 3 closure).0.gas + 1 + expansion_gas 0 (round_up 40) ≡ closure.gas)
    × ((2 ^ 64 ≤ round_up 40) ⊎ (40 ≤ length (Memory.resize [] 64)))
    × (0 ≤ length (Memory.resize [] 64))
    × (length (Memory.resize [] 64) % 32 ≡ 0)
charge-paid_example =
    charge-paid 1 40 [] closure (Memory.resize [] 64) (use_gas 3 closure).0 charged refl

abbrev nothing : ℕ
nothing = 0

exec_arith-IsLeft_example : Holds (IsLeft true (5 ∷ [])) (exec_arith neg (nothing ∷ 5 ∷ []))
exec_arith-IsLeft_example =
    exec_arith-IsLeft neg nothing (5 ∷ []) refl (omega arith, (omega arith, tt))

mload_stale : lookup_name "MLOAD" op_codes ≡ some 84
unfolding lookup_name op_codes
mload_stale = refl

abbrev add_name : String
add_name = "ADD"

-- Memory that is paid for is not allocated where its size does not fit in 64 bits.
abbrev rich : Closure
rich = record { code = []; behind = []; gas = 2 ^ 60; used_gas = pos 0 }

abbrev length_paid : Charged → ℕ
length_paid (paid mem c) = length mem
length_paid (out_of_gas c) = 1

resize_lost : length_paid (charge 1 (2 ^ 64) [] rich) ≡ 0
unfolding charge use_gas round_up expansion_gas Memory.resize
resize_lost = refl

-- The program counter is at 1, and 64 and 777 are on the stack.
abbrev machine : Machine
machine = record { stack = 64 ∷ 777 ∷ []; pc = 1; mem = [] }

-- The duplicate of a destination stays as it is when the program counter moves on, and so does what
-- PC pushes.
copies_stay :
    ((exec closure [] (dup 1) machine >>= exec_jump >>= λ m. Stack.peek (advance 5 m).stack)
      ≡ ok 64)
    × ((exec closure [] pc_op machine >>= λ m. Stack.peek (advance 5 m).stack) ≡ ok 1)
unfolding exec exec_jump slice from_be Stack.dupn Stack.peek Stack.requiring Stack.pop
copies_stay = (refl, refl)

exec-mload-mstore_example :
    (exec closure [] mstore machine >>= λ m'.
    exec closure [] mload (push_value 64 m') >>= λ m''. Stack.peek m''.stack)
    ≡ ok 777
exec-mload-mstore_example =
    exec-mload-mstore closure [] machine 64 777 [] refl (omega arith) (omega arith)
