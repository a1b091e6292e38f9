-- ===== src/Vm/Machine/Memories.antt =====
-- The words that memory gives back.
use thelonious.Base.{
  ℕ, suc, ◌+◌, ◌%◌, ◌<◌, ◌≤◌, ◌≡◌, ◌^◌, arith, ap, ◌∙◌, List, ◌∷◌, length, lt→ltb, leb, true, ok,
  ◌>>=◌, some,
}
use mathlib.Core.Path.{subst}
use thelonious.Util.Big.{set_bytes, big_bytes, length-big_bytes}
use thelonious.Util.Bytes.{big_to_bytes}
use thelonious.Util.Bytes.Pads.{big_to_bytes_lem}
use thelonious.Vm.Stack
use thelonious.Vm.Memory
use thelonious.Vm.Memory.Laws.{get-set}
use thelonious.Vm.Closure.{Closure}
use thelonious.Vm.Gas.{or_empty}
use thelonious.Vm.Machine.{
  Machine, push_value, pop_value, advance, int64, mem_set, exec_body, exec, mload, mstore,
}

int64-small : (v : ℕ) → v < 2 ^ 63 → int64 v ≡ ok v
unfolding int64
int64-small v h = let low : v % 2 ^ 64 ≡ v = omega arith in rw low (rw (lt→ltb v (2 ^ 63) h))

word_bytes : (val : ℕ) → val < 2 ^ 256 → length (big_to_bytes val 256) ≡ 32
word_bytes val h =
    let fits : length (big_bytes val) ≤ 32 = length-big_bytes 32 val h in
    (big_to_bytes_lem val 256).1 ∙ omega (arith, fits)

read_back :
    (mem : List ℕ) (off val : ℕ)
    → val < 2 ^ 256
    → set_bytes (or_empty (Memory.get (Memory.set mem off 32 (big_to_bytes val 256)) off 32)) ≡ val
read_back mem off val h =
    let bytes = big_to_bytes val 256 in
    let n : length bytes ≡ 32 = word_bytes val h in
    let got =
      subst (λ k. Memory.get (Memory.set mem off k bytes) off k ≡ some bytes) n
        (get-set mem off bytes (omega (arith, n))) in
    rw got (big_to_bytes_lem val 256).0

-- A word below 2 ^ 256 stored by MSTORE, at an offset below 2 ^ 63 - 32, is loaded by MLOAD at the
-- same offset.
pub exec-mload-mstore :
    (c : Closure) (args : List ℕ) (m : Machine) (off val : ℕ) (st : List ℕ)
    → m.stack ≡ off ∷ val ∷ st
    → off + 32 < 2 ^ 63
    → val < 2 ^ 256
    → (exec c args mstore m >>= λ m'.
        exec c args mload (push_value off m') >>= λ m''. Stack.peek m''.stack)
      ≡ ok val
unfolding exec exec_body advance pop_value push_value mem_set Stack.peek Stack.pop Stack.push
    Stack.requiring Stack.require
exec-mload-mstore c args m off val st es small word =
    let two : leb 2 (suc (suc (length st))) ≡ true = ground arith in
    let one : leb 1 (suc (length st)) ≡ true = ground arith in
    let fits = lt→ltb (off + 32) (2 ^ 63) small in
    let near = int64-small off (omega arith) in
    rw es (rw (two, near, fits) (rw one (ap ok (read_back m.mem off val word))))
