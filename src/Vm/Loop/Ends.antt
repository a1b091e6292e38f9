-- ===== src/Vm/Loop/Ends.antt =====
-- RunClosure ends, as its gas does.
use thelonious.Base.{
  ◌%◌, ◌^◌, Holds-weaken, ℕ, ◌+◌, ◌<◌, ◌≤◌, ◌≡◌, ◌⊎◌, inl, inr, refl, sym, arith, List, length, ltb,
  false, Bool-cases, Outcome, ok, ◌>>=◌, index, Holds, Holds->>=,
}
use mathlib.Core.Path.{subst}
use thelonious.Vm.Stack
use thelonious.Vm.Memory
use thelonious.Vm.Closure.{Closure, gets, use_gas, use_all_gas}
use thelonious.Vm.Gas.{Cost, cost, refused, step_cost, reach}
use thelonious.Vm.Gas.Charge.{paid, out_of_gas, charge, charge_lem, round_up, expansion_gas}
use thelonious.Vm.Arithmetic.{Arith, exec_arith}
use thelonious.Vm.Machine.{Machine, Instr, int64}
use thelonious.Vm.Machine.Ends.{
  Ends, int64-Ends, gets-Ends, index-Ends, Holds-if, then_any, requiring-Holds, popping, exec-Ends,
  exec_jump-Ends, exec_jumpi-Ends,
}
use thelonious.Vm.Loop.{
  Op, word_op, move_op, jump_op, jumpi_op, return_op, stop_op, log_op, invalid_op, outer_op,
  cost_op, op_of, Frame, Step, goes, returned, failed, left, exec_words, fetch, exec_return,
  perform, pay, is_outer, step,
}
use thelonious.Vm.Loop.Words.{exec_arith-Ends}

abbrev IsStop : Op → Type 0
IsStop stop_op = Unit
IsStop op = ⊥

-- An instruction takes gas, but for STOP.
IsPaid : Op → Cost → Type 0
IsPaid op refused = Unit
IsPaid op (cost gas size) = IsStop op ⊎ (0 < gas)

at_top-IsPaid :
    (op : Op) (n : ℕ) (st : List ℕ) (size : ℕ → ℕ)
    → Holds (IsPaid op) (Stack.requiring n st (index st 0 >>= λ o. ok (cost 1 (size o))))
unfolding IsPaid
at_top-IsPaid op n st size =
    requiring-Holds (IsPaid op) n st _
      (then_any (IsPaid op) (index st 0) _ (index-Ends st 0) (λ o. inr (omega arith)))

reach-IsPaid :
    (op : Op) (n : ℕ) (st : List ℕ) (off l : ℕ)
    → Holds (IsPaid op) (Stack.requiring n st (reach 1 st off l))
unfolding IsPaid reach
reach-IsPaid op n st off l = requiring-Holds (IsPaid op) n st _ (
    then_any (IsPaid op) (index st off) _ (index-Ends st off)
      (λ o. then_any (IsPaid op) (index st l) _ (index-Ends st l) (λ k. inr (omega arith))))

step_cost-IsPaid :
    (mem : List ℕ) (op : Op) (st : List ℕ)
    → Holds (IsPaid op) (step_cost (λ x. 0) false mem (cost_op op) st)
unfolding step_cost IsPaid
step_cost-IsPaid mem (word_op a) st = inr (omega arith)
step_cost-IsPaid mem (move_op Instr.mload) st = at_top-IsPaid (move_op Instr.mload) 1 st _
step_cost-IsPaid mem (move_op Instr.mstore) st = at_top-IsPaid (move_op Instr.mstore) 2 st _
step_cost-IsPaid mem (move_op Instr.mstore8) st = at_top-IsPaid (move_op Instr.mstore8) 2 st _
step_cost-IsPaid mem (move_op Instr.calldatacopy) st =
    reach-IsPaid (move_op Instr.calldatacopy) 2 st 0 2
step_cost-IsPaid mem (move_op Instr.codecopy) st = reach-IsPaid (move_op Instr.codecopy) 3 st 0 2
step_cost-IsPaid mem (move_op (Instr.push a)) st = inr (omega arith)
step_cost-IsPaid mem (move_op (Instr.dup a)) st = inr (omega arith)
step_cost-IsPaid mem (move_op (Instr.swap a)) st = inr (omega arith)
step_cost-IsPaid mem (move_op Instr.pop) st = inr (omega arith)
step_cost-IsPaid mem (move_op Instr.pc_op) st = inr (omega arith)
step_cost-IsPaid mem (move_op Instr.msize) st = inr (omega arith)
step_cost-IsPaid mem (move_op Instr.calldataload) st = inr (omega arith)
step_cost-IsPaid mem (move_op Instr.calldatasize) st = inr (omega arith)
step_cost-IsPaid mem (move_op Instr.codesize) st = inr (omega arith)
step_cost-IsPaid mem return_op st = reach-IsPaid return_op 2 st 0 1
step_cost-IsPaid mem stop_op st = inl tt
step_cost-IsPaid mem jump_op st = inr (omega arith)
step_cost-IsPaid mem jumpi_op st = inr (omega arith)
step_cost-IsPaid mem log_op st = inr (omega arith)
step_cost-IsPaid mem invalid_op st = inr (omega arith)
step_cost-IsPaid mem outer_op st = inr (omega arith)

pub step_cost-Ends :
    (mem : List ℕ) (op : Op) (st : List ℕ) → Ends (step_cost (λ x. 0) false mem (cost_op op) st)
step_cost-Ends mem op st =
    Holds-weaken (IsPaid op) (λ k. Unit) (step_cost (λ x. 0) false mem (cost_op op) st) (λ k h. tt)
      (step_cost-IsPaid mem op st)

-- What a turn leaves of the gas there was: less, where the loop goes on, and no more, where it ends.
abbrev pub Lowers : ℕ → Step → Type 0
Lowers g (goes f) = f.closure.gas < g
Lowers g (returned bytes f) = f.closure.gas ≤ g
Lowers g (failed f) = f.closure.gas ≤ g
Lowers g (left b f) = f.closure.gas ≤ g

moved :
    (g : ℕ) (f : Frame) (o : Outcome Machine)
    → f.closure.gas < g
    → Ends o
    → Holds (Lowers g) (o >>= λ m. ok (goes (record f { machine = m })))
moved g f o l h = then_any (Lowers g) o _ h (λ m. l)

exec_words-Ends : (a : Arith) (m : Machine) → Ends (exec_words a m)
unfolding exec_words
exec_words-Ends a m = then_any _ (exec_arith a m.stack) _ (exec_arith-Ends a m.stack) (λ st. tt)

perform-Lowers :
    (g : ℕ) (args : List ℕ) (b : ℕ) (op : Op) (f : Frame)
    → f.closure.gas ≤ g
    → (IsStop op ⊎ (f.closure.gas < g))
    → Holds (Lowers g) (perform args b op f)
unfolding perform exec_return
perform-Lowers g args b stop_op f h l = h
perform-Lowers g args b invalid_op f h l = h
perform-Lowers g args b outer_op f h l = h
perform-Lowers g args b return_op f h l = requiring-Holds (Lowers g) 2 f.machine.stack _ (
    popping (Lowers g) f.machine _ (λ x m. popping (Lowers g) m _ (λ y m'.
      then_any (Lowers g) (int64 x) _ (int64-Ends x)
        (λ o. then_any (Lowers g) (int64 y) _ (int64-Ends y) (λ n. h)))))
perform-Lowers g args b op f h (inl e) = absurd e
perform-Lowers g args b (word_op a) f h (inr l) =
    then_any (Lowers g) (exec_words a f.machine) _ (exec_words-Ends a f.machine) (λ m. l)
perform-Lowers g args b (move_op i) f h (inr l) =
    moved g f _ l (exec-Ends f.closure args i f.machine)
perform-Lowers g args b jump_op f h (inr l) = moved g f _ l (exec_jump-Ends f.machine)
perform-Lowers g args b jumpi_op f h (inr l) = moved g f _ l (exec_jumpi-Ends f.machine)
perform-Lowers g args b log_op f h (inr l) = l

-- What is done after charging.
pub pay_failing :
    (args : List ℕ) (b : ℕ) (op : Op) (f : Frame) (gas size : ℕ) (c : Closure)
    → charge gas size f.machine.mem f.closure ≡ out_of_gas c
    → pay args b op f (cost gas size) ≡ ok (failed (record f { closure = c }))
unfolding pay
pay_failing args b op f gas size c e = rw (e, pay) refl

pub pay_paid :
    (args : List ℕ) (b : ℕ) (op : Op) (f : Frame) (gas size : ℕ) (mem : List ℕ) (c : Closure)
    → charge gas size f.machine.mem f.closure ≡ paid mem c
    → pay args b op f (cost gas size)
      ≡ perform args b op (record { machine = record f.machine { mem = mem }; closure = c })
unfolding pay perform
pay_paid args b op f gas size mem c e = rw (e, pay) refl

pay-Lowers :
    (args : List ℕ) (b : ℕ) (op : Op) (f : Frame) (k : Cost)
    → IsPaid op k
    → Holds (Lowers f.closure.gas) (pay args b op f k)
unfolding pay IsPaid
pay-Lowers args b op f refused h = omega arith
pay-Lowers args b op f (cost gas size) h = elim (charge_lem gas size f.machine.mem f.closure) [
  | inl (l, e) ↦
      subst (Holds (Lowers f.closure.gas))
        (sym (pay_failing args b op f gas size (use_all_gas f.closure) e)) (spent f.closure)
  | inr (l, e) ↦
      let total = gas + expansion_gas (length f.machine.mem) (round_up size) in
      subst (Holds (Lowers f.closure.gas))
        (sym (
          pay_paid args b op f gas size (Memory.resize f.machine.mem (round_up size % 2 ^ 64))
            (use_gas total f.closure).0 e))
        (perform-Lowers f.closure.gas args b op
          (record {
            machine = record f.machine {
              mem = Memory.resize f.machine.mem (round_up size % 2 ^ 64);
            };
            closure = (use_gas total f.closure).0;
          })
          (used total f.closure l).0
          (elim h [ inl s ↦ inl s | inr p ↦ inr ((used total f.closure l).1 (omega (arith, p))) ]))
]
  where
    spent : (c : Closure) → (use_all_gas c).gas ≤ c.gas
    spent c = unfold use_all_gas in omega arith

    used :
        (n : ℕ) (c : Closure)
        → n ≤ c.gas
        → ((use_gas n c).0.gas ≤ c.gas) × (0 < n → (use_gas n c).0.gas < c.gas)
    used n c l =
        unfold use_gas in
        elim (Bool-cases (ltb c.gas n)) [
          | inl e ↦ absurd (ground (arith, e, l))
          | inr e ↦ rw e (omega (arith, l), λ p. omega (arith, l, p))
        ]

pub fetch-Ends : (f : Frame) → Ends (fetch f)
unfolding fetch
fetch-Ends f =
    then_any (λ b. Unit) (int64 f.machine.pc) _ (int64-Ends f.machine.pc)
      (λ at. then_any (λ b. Unit) (gets f.closure at 1) _ (gets-Ends f.closure at 1) (λ bytes. tt))

pub step-Lowers : (args : List ℕ) (f : Frame) → Holds (Lowers f.closure.gas) (step args f)
unfolding step
step-Lowers args f = then_any (Lowers f.closure.gas) (fetch f) _ (fetch-Ends f) (λ b.
    Holds-if (Lowers f.closure.gas) (is_outer (op_of b)) _ _ (omega arith) (
      Holds->>= (IsPaid (op_of b)) (Lowers f.closure.gas)
        (step_cost (λ x. 0) false f.machine.mem (cost_op (op_of b)) f.machine.stack) _
        (step_cost-IsPaid f.machine.mem (op_of b) f.machine.stack)
        (λ k h. pay-Lowers args b (op_of b) f k h)))

-- What a run ends with.
abbrev pub Stays : ℕ → Step → Type 0
Stays g (goes f) = ⊥
Stays g (returned bytes f) = f.closure.gas ≤ g
Stays g (failed f) = f.closure.gas ≤ g
Stays g (left b f) = f.closure.gas ≤ g
