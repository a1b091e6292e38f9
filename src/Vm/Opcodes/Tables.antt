-- ===== src/Vm/Opcodes/Tables.antt =====
-- The three tables side by side, compared entry by entry by evaluation.
use Prim.Native.String.{String}
use text.Mathlib.Text.{◌==◌ as str_eq}
use text.Mathlib.TextEquality.{eq_iff}
use thelonious.Base.{
  ◌↔◌, ℕ, List, [], ◌∷◌, Bool, true, false, if◌then◌else◌, ◌==◌, ==_iff, ◌||◌, not, Option, none,
  some, ◌≡◌, refl, ◌⊎◌, inl, inr, Bool-cases, arith,
}
use thelonious.Vm.Opcodes.Consts.{op_consts}
use thelonious.Vm.Opcodes.Assembler.{op_codes}
use thelonious.Vm.Opcodes.{lookup_name, op_string}

every : (String → ℕ → Bool) → List (String × ℕ) → Bool
every p [] = true
every p ((k, v) ∷ table) = if p k v then every p table else false

every-lookup_name :
    (p : String → ℕ → Bool) (table : List (String × ℕ)) (k : String) (c : ℕ)
    → every p table ≡ true
    → lookup_name k table ≡ some c
    → p k c ≡ true
unfolding every lookup_name
every-lookup_name p [] k c h e = cc
every-lookup_name p ((j, v) ∷ table) k c h e =
    ground (arith, eq_iff j k, every-lookup_name p table k c)

some_string : Option String → String → Bool
some_string none s = false
some_string (some t) s = str_eq t s

some_number : Option ℕ → ℕ → Bool
some_number none c = false
some_number (some d) c = d == c

some_string→eq : (o : Option String) (s : String) → some_string o s ≡ true → o ≡ some s
unfolding some_string
some_string→eq none s h = cc
some_string→eq (some t) s h = cc ((eq_iff t s).0 h)

some_number→eq : (o : Option ℕ) (c : ℕ) → some_number o c ≡ true → o ≡ some c
unfolding some_number
some_number→eq none c h = cc
some_number→eq (some d) c h = cc ((==_iff d c).0 h)

some_number_refl : (c : ℕ) → some_number (some c) c ≡ true
unfolding some_number
some_number_refl c = (==_iff c c).1 refl

named : String → ℕ → Bool
named k c = str_eq k "GASPRICE" || some_string (op_string c) k

all_named : every named op_consts ≡ true
unfolding every named op_consts op_string some_string
all_named = refl

-- Every op code prints as the name of its constant, but GASPRICE, which prints as TXGASPRICE.
op_string-op_consts :
    (name : String) (c : ℕ)
    → lookup_name name op_consts ≡ some c
    → (name ≡ "GASPRICE") ⊎ (op_string c ≡ some name)
unfolding named
op_string-op_consts name c e =
    let h = every-lookup_name named op_consts name c all_named e in
    elim (Bool-cases (str_eq name "GASPRICE")) [
      | inl g ↦ inl ((eq_iff name "GASPRICE").0 g)
      | inr g ↦ inr (some_string→eq (op_string c) name (rw g at h))
    ]

-- The names whose byte in the assembler's table is not the op code of that name: the table follows
-- an older numbering, and PUSH26 and SUICIDE have the bytes of PUSH17 and PUSH32.
abbrev pub is_stale : String → Bool
is_stale s =
    str_eq s "EQ"
    || str_eq s "NOT"
    || str_eq s "POP"
    || str_eq s "DUP"
    || str_eq s "SWAP"
    || str_eq s "MLOAD"
    || str_eq s "MSTORE"
    || str_eq s "MSTORE8"
    || str_eq s "SLOAD"
    || str_eq s "SSTORE"
    || str_eq s "JUMP"
    || str_eq s "JUMPI"
    || str_eq s "PC"
    || str_eq s "MSIZE"
    || str_eq s "PUSH26"
    || str_eq s "SUICIDE"

assembled : String → ℕ → Bool
assembled k c =
    if is_stale k
    then not (some_number (lookup_name k op_consts) c)
    else some_number (lookup_name k op_consts) c

all_assembled : every assembled op_codes ≡ true
unfolding every assembled op_codes op_consts lookup_name some_number
all_assembled = refl

-- A name in the assembler's table has the byte of its op code, unless it is one of sixteen stale
-- names, and then it has not.
op_codes-op_consts :
    (name : String) (c : ℕ)
    → lookup_name name op_codes ≡ some c
    → (is_stale name ≡ false) ↔ (lookup_name name op_consts ≡ some c)
unfolding assembled
op_codes-op_consts name c e =
    let h = every-lookup_name assembled op_codes name c all_assembled e in
    (
      (λ fresh. some_number→eq (lookup_name name op_consts) c (rw fresh at h)),
      λ found. elim (Bool-cases (is_stale name)) [
        | inl stale ↦ cc (rw (found, some_number_refl c) at (rw stale at h))
        | inr fresh ↦ fresh
      ],
    )
