-- ===== src/Vm/Opcodes.antt =====
-- monkvm/types.go: the op codes, their names, and the table for assemblers. A Go map literal is the
-- list of its entries.
mod Consts
mod Names
mod Assembler
pub mod Tables
unfoldable pub use Consts.{op_consts}
unfoldable pub use Names.{op_code_to_string}
unfoldable pub use Assembler.{op_codes}
use Prim.Native.String.{String}
use text.Mathlib.Text.{◌==◌ as str_eq}
use thelonious.Base.{ℕ, List, [], ◌∷◌, Bool, true, false, if◌then◌else◌, ◌==◌, Option, none, some}

unfoldable pub lookup_name : String → List (String × ℕ) → Option ℕ
lookup_name k [] = none
lookup_name k ((j, v) ∷ table) = if str_eq j k then some v else lookup_name k table

unfoldable pub lookup_code : ℕ → List (ℕ × String) → Option String
lookup_code c [] = none
lookup_code c ((d, s) ∷ table) = if d == c then some s else lookup_code c table

-- `OpCode.String`; `none` stands for the text "Missing opcode 0x…".
unfoldable pub op_string : ℕ → Option String
unfolding lookup_code op_code_to_string
op_string o = lookup_code o op_code_to_string

-- `IsOpCode`
unfoldable pub has_name : String → List (String × ℕ) → Bool
has_name s [] = false
has_name s ((key, v) ∷ table) = if str_eq key s then true else has_name s table

unfoldable pub is_op_code : String → Bool
unfolding has_name op_codes
is_op_code s = has_name s op_codes
