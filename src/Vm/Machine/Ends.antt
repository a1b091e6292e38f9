-- ===== src/Vm/Machine/Ends.antt =====
-- What the instructions do ends, with a result or a panic.
use thelonious.Base.{
  ◌++◌, ℕ, suc, ◌+◌, ◌-◌, ◌^◌, ◌%◌, List, [], ◌∷◌, length, ltb, leb, if◌then◌else◌, Bool, true,
  false, ◌||◌, ◌&&◌, ◌==◌, Outcome, ok, ◌>>=◌, index, index_inv, Bool-cases, inl, inr, Holds,
  Holds->>=, slice, slice_inv, min,
}
use thelonious.Util.Big.{set_bytes}
use thelonious.Vm.Stack
use thelonious.Vm.Closure.{Closure, gets}
use thelonious.Vm.Machine.{
  Machine, pop_value, advance, int64, mem_set, copied, exec_copy, load_data, exec_push, print_dup,
  Instr, exec_body, exec, exec_jump, exec_jumpi, push, dup, swap, pop, mload, mstore, mstore8,
  pc_op, msize, calldataload, calldatasize, calldatacopy, codesize, codecopy,
}

abbrev pub Ends : {A : Type 0} → Outcome A → Type 0
Ends o = Holds (λ a. Unit) o

-- Behind a step whose result matters to nothing that is shown.
pub then_any :
    {A B : Type 0} (P : B → Type 0) (o : Outcome A) (f : A → Outcome B)
    → Ends o
    → ((a : A) → Holds P (f a))
    → Holds P (o >>= f)
then_any P o f e h = Holds->>= (λ a. Unit) P o f e (λ a u. h a)

pub requiring-Holds :
    {A : Type 0} (P : A → Type 0) (n : ℕ) (st : List ℕ) (o : Outcome A)
    → Holds P o
    → Holds P (Stack.requiring n st o)
unfolding Stack.requiring
requiring-Holds P n st o h = elim (Bool-cases (Stack.require n st)) [
  | inl e ↦ rw e h
  | inr e ↦ rw e tt
]

pub Holds-if :
    {A : Type 0} (P : A → Type 0) (b : Bool) (o p : Outcome A)
    → Holds P o
    → Holds P p
    → Holds P (if b then o else p)
Holds-if P true o p h k = h
Holds-if P false o p h k = k

pub int64-Ends : (v : ℕ) → Ends (int64 v)
unfolding int64
int64-Ends v = elim (Bool-cases (ltb (v % 2 ^ 64) (2 ^ 63))) [ inl e ↦ rw e tt | inr e ↦ rw e tt ]

pub slice-Ends : (s : List ℕ) (lo hi : ℕ) → Ends (slice s lo hi)
slice-Ends s lo hi = elim (slice_inv s lo hi) [ inl e ↦ rw e tt | inr (t, e, _, _) ↦ rw e tt ]

pub gets-Ends : (c : Closure) (x y : ℕ) → Ends (gets c x y)
unfolding gets
gets-Ends c x y = elim (Bool-cases (leb (length c.code) x || leb (length c.code) y)) [
  | inl e ↦ rw e tt
  | inr e ↦ rw e (slice-Ends (c.code ++ c.behind) x (x + y))
]

pub print_dup-Ends : (c : Closure) (p v : ℕ) → Ends (print_dup c p v)
unfolding print_dup
print_dup-Ends c p v =
    Holds->>= (λ a. Unit) (λ a. Unit) (int64 (p + 1)) _ (int64-Ends (p + 1))
      (λ x _.
        Holds->>= (λ a. Unit) (λ a. Unit) (gets c x 1) _ (gets-Ends c x 1)
          (λ a _.
            Holds-if (λ a. Unit) (set_bytes a == 0x50) _ _
              (Holds->>= (λ a. Unit) (λ a. Unit) (int64 (p + 2)) _ (int64-Ends (p + 2))
                (λ y _.
                  Holds->>= (λ a. Unit) (λ a. Unit) (gets c y 1) _ (gets-Ends c y 1)
                    (λ b _. Holds-if (λ a. Unit) (set_bytes b == 0x50 && v == 0) _ _ tt tt)))
              tt))

pub index-Ends : (s : List ℕ) (i : ℕ) → Ends (index s i)
index-Ends s i = elim (index_inv s i) [ inl (e, _) ↦ rw e tt | inr (x, e, _) ↦ rw e tt ]

-- A pop, and what follows it.
pub popping :
    {B : Type 0} (P : B → Type 0) (m : Machine) (f : ℕ → Machine → Outcome B)
    → ((v : ℕ) (m' : Machine) → Holds P (f v m'))
    → Holds P (pop_value m >>= λ (v, m'). f v m')
unfolding pop_value Stack.pop
popping P m f h = go m.stack
  where
    go :
        (st : List ℕ)
        → Holds P
            ((Stack.pop st >>= λ (v, st'). ok (v, record m { stack = st' })) >>= λ (v, m'). f v m')
    go [] = unfold Stack.pop in tt
    go (v ∷ st) = unfold Stack.pop in h v (record m { stack = st })

mem_set-Ends : (o n : ℕ) (bytes : List ℕ) (m : Machine) → Ends (mem_set o n bytes m)
unfolding mem_set
mem_set-Ends o n bytes m = Holds-if (λ a. Unit) (ltb (o + n) (2 ^ 63)) _ _ tt tt

copied-Ends : (code : List ℕ) (c_off l : ℕ) → Ends (copied code c_off l)
unfolding copied
copied-Ends code c_off l =
    Holds-if (λ a. Unit) (ltb (length code) c_off) _ _ tt
      (Holds-if (λ a. Unit) (leb (2 ^ 63) (c_off + l)) _ _ tt
        (Holds-if (λ a. Unit) (ltb (length code) (c_off + l)) _ _ tt
          (Holds->>= (λ a. Unit) (λ a. Unit) (slice code c_off (c_off + l)) _
            (slice-Ends code c_off (c_off + l)) (λ a _. tt))))

exec_copy-Ends : (code : List ℕ) (m : Machine) → Ends (exec_copy code m)
unfolding exec_copy
exec_copy-Ends code m = popping _ m _ λ x m1. then_any _ (int64 x) _ (int64-Ends x) λ m_off.
    popping _ m1 _ λ y m2. then_any _ (int64 y) _ (int64-Ends y) λ c_off. popping _ m2 _ λ z m3.
      then_any _ (int64 z) _ (int64-Ends z) λ l.
        then_any _ (copied code c_off l) _ (copied-Ends code c_off l)
          λ (n, bytes). mem_set-Ends m_off n bytes m3

load_data-Ends : (args : List ℕ) (offset : ℕ) → Ends (load_data args offset)
unfolding load_data
load_data-Ends args offset =
    let end = min (offset + 32) (length args) in
    Holds-if (λ a. Unit) (leb offset (length args)) _ _
      (Holds->>= (λ a. Unit) (λ a. Unit) (slice args offset end) _ (slice-Ends args offset end)
        (λ a _. tt))
      tt

dupn-Ends : (k : ℕ) (st : List ℕ) → Ends (Stack.dupn k st)
unfolding Stack.dupn
dupn-Ends k st = then_any _ (index st (k - 1)) _ (index-Ends st (k - 1)) (λ v. tt)

swapn-Ends : (k : ℕ) (st : List ℕ) → Ends (Stack.swapn k st)
unfolding Stack.swapn
swapn-Ends k st =
    then_any _ (index st (k - 1)) _ (index-Ends st (k - 1))
      (λ d. then_any _ (index st 0) _ (index-Ends st 0) (λ t. tt))

exec_body-Ends :
    (c : Closure) (args : List ℕ) (i : Instr) (m : Machine) → Ends (exec_body c args i m)
unfolding exec_body exec_push Stack.peek
exec_body-Ends c args (push a) m =
    then_any _ (int64 (m.pc + 1)) _ (int64-Ends (m.pc + 1))
      λ at. then_any _ (gets c at a) _ (gets-Ends c at a) λ bytes. tt
exec_body-Ends c args pop m = requiring-Holds _ 1 m.stack _ (popping _ m _ (λ v m'. tt))
exec_body-Ends c args (dup n) m = then_any _ (Stack.dupn n m.stack) _ (dupn-Ends n m.stack) (λ st.
    then_any _ (index st 0) _ (index-Ends st 0)
      λ v. then_any _ (print_dup c m.pc v) _ (print_dup-Ends c m.pc v) λ u. tt)
exec_body-Ends c args (swap n) m =
    then_any _ (Stack.swapn (suc n) m.stack) _ (swapn-Ends (suc n) m.stack) (λ (x, y, st). tt)
exec_body-Ends c args mload m =
    requiring-Holds _ 1 m.stack _
      (popping _ m _ λ x m'. then_any _ (int64 x) _ (int64-Ends x) λ offset. tt)
exec_body-Ends c args mstore m = requiring-Holds _ 2 m.stack _ (
    popping _ m _ λ x m1.
      popping _ m1 _
        λ y m2. then_any _ (int64 x) _ (int64-Ends x) λ offset. mem_set-Ends offset 32 _ m2)
exec_body-Ends c args mstore8 m = requiring-Holds _ 2 m.stack _ (
    popping _ m _ λ x m1. popping _ m1 _ λ y m2.
      then_any _ (int64 x) _ (int64-Ends x)
        λ offset. then_any _ (index m2.mem offset) _ (index-Ends m2.mem offset) λ old. tt)
exec_body-Ends c args pc_op m = tt
exec_body-Ends c args msize m = tt
exec_body-Ends c args calldataload m =
    requiring-Holds _ 1 m.stack _
      (popping _ m _ λ x m'. then_any _ (load_data args x) _ (load_data-Ends args x) λ v. tt)
exec_body-Ends c args calldatasize m = tt
exec_body-Ends c args calldatacopy m = exec_copy-Ends args m
exec_body-Ends c args codesize m = tt
exec_body-Ends c args codecopy m = exec_copy-Ends c.code m

pub exec-Ends : (c : Closure) (args : List ℕ) (i : Instr) (m : Machine) → Ends (exec c args i m)
unfolding exec
exec-Ends c args i m = then_any _ (exec_body c args i m) _ (exec_body-Ends c args i m) (λ m'. tt)

pub exec_jump-Ends : (m : Machine) → Ends (exec_jump m)
unfolding exec_jump
exec_jump-Ends m = requiring-Holds _ 1 m.stack _ (go m.stack)
  where
    go :
        (st : List ℕ)
        → Ends (Stack.pop st >>= λ (place, st'). ok (record m { stack = st'; pc = place }))
    go [] = unfold Stack.pop in tt
    go (r ∷ st) = unfold Stack.pop in tt

pub exec_jumpi-Ends : (m : Machine) → Ends (exec_jumpi m)
unfolding exec_jumpi
exec_jumpi-Ends m = requiring-Holds _ 2 m.stack _ (go m.stack)
  where
    go :
        (st : List ℕ)
        → Ends (
            Stack.popn st >>= λ (cond, place, st').
            if leb 1 cond
            then ok (record m { stack = st'; pc = place })
            else ok (advance 1 (record m { stack = st' })))
    go [] = unfold Stack.popn in tt
    go (y ∷ []) = unfold Stack.popn in tt
    go (y ∷ x ∷ st) = unfold Stack.popn in Holds-if (λ a. Unit) (leb 1 x) _ _ tt tt
