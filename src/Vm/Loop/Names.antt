-- ===== src/Vm/Loop/Names.antt =====
-- The instructions of the interpreter and the table of their names.
use thelonious.Base.{
  ℕ, ◌<◌, ◌≡◌, ◌↔◌, refl, sym, ◌∙◌, Bool, true, false, Option, none, some, each_below,
  each_below-at, not,
}
use mathlib.Core.Path.{subst}
use Prim.Native.String.{String}
use thelonious.Vm.Opcodes.{op_string}
use thelonious.Vm.Loop.{
  Op, word_op, move_op, jump_op, jumpi_op, return_op, stop_op, log_op, invalid_op, outer_op, op_of,
}

is_invalid : Op → Bool
is_invalid invalid_op = true
is_invalid op = false

-- The switch takes a byte for no instruction exactly where the table has no name for it.
agree : Option String → Op → Bool
unfolding is_invalid
agree none op = is_invalid op
agree (some s) op = not (is_invalid op)

all_agree : each_below (λ b. agree (op_string b) (op_of b)) 256 ≡ true
unfolding each_below agree op_string op_of
all_agree = refl

is_invalid-eq : (op : Op) → is_invalid op ≡ true → op ≡ invalid_op
unfolding is_invalid
is_invalid-eq invalid_op e = refl
is_invalid-eq (word_op a) e = cc
is_invalid-eq (move_op i) e = cc
is_invalid-eq jump_op e = cc
is_invalid-eq jumpi_op e = cc
is_invalid-eq return_op e = cc
is_invalid-eq stop_op e = cc
is_invalid-eq log_op e = cc
is_invalid-eq outer_op e = cc

-- For every byte, the interpreter takes it for no instruction exactly where the table of names has
-- none for it.
op_of-op_string : (b : ℕ) → b < 256 → (op_of b ≡ invalid_op) ↔ (op_string b ≡ none)
op_of-op_string b h =
    decide (op_string b) refl (each_below-at (λ c. agree (op_string c) (op_of c)) 256 b h all_agree)
  where
    decide :
        (o : Option String)
        → op_string b ≡ o
        → agree (op_string b) (op_of b) ≡ true
        → (op_of b ≡ invalid_op) ↔ (op_string b ≡ none)
    decide none e g =
        let i : is_invalid (op_of b) ≡ true =
          unfold agree in subst (λ o. agree o (op_of b) ≡ true) e g in
        (λ q. e, λ q. is_invalid-eq (op_of b) i)
    decide (some s) e g =
        let i : not (is_invalid (op_of b)) ≡ true =
          unfold agree in subst (λ o. agree o (op_of b) ≡ true) e g in
        (
          λ q. let f : false ≡ true = unfold is_invalid in rw q at i in cc,
          λ q. let f : some s ≡ none = sym e ∙ q in cc,
        )
