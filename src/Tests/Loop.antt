-- ===== src/Tests/Loop.antt =====
-- The loop of the virtual machine at concrete inputs.
use thelonious.Base.{[], ◌∷◌, Outcome}
use thelonious.Base.Int.{pos}
use thelonious.Vm.Closure.{Closure}
use thelonious.Vm.Loop.{Step, run_closure}

-- PUSH1 2, PUSH1 3, ADD, PUSH1 0, MSTORE8, PUSH1 1, PUSH1 0, RETURN
abbrev adding : Closure
adding = record {
  code = 0x60 ∷ 2 ∷ 0x60 ∷ 3 ∷ 1 ∷ 0x60 ∷ 0 ∷ 0x55 ∷ 0x60 ∷ 1 ∷ 0x60 ∷ 0 ∷ 0xf2 ∷ [];
  behind = [];
  gas = 20;
  used_gas = pos 0;
}

-- JUMP to the PUSH1 before it: a loop.
abbrev looping : Closure
looping = record { code = 0x60 ∷ 0 ∷ 0x58 ∷ []; behind = []; gas = 9; used_gas = pos 0 }

run_adding : Outcome Step
unfolding run_closure
run_adding = run_closure [] adding

run_looping : Outcome Step
unfolding run_closure
run_looping = run_closure [] looping
