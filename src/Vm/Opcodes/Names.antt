-- ===== src/Vm/Opcodes/Names.antt =====
-- `opCodeToString` of monkvm/types.go: what OpCode.String prints.
use Prim.Native.String.{String}
use thelonious.Base.{ℕ, List, [], ◌∷◌}

unfoldable pub op_code_to_string : List (ℕ × String)
op_code_to_string =
    (0x00, "STOP")
    ∷ (0x01, "ADD")
    ∷ (0x02, "MUL")
    ∷ (0x03, "SUB")
    ∷ (0x04, "DIV")
    ∷ (0x05, "SDIV")
    ∷ (0x06, "MOD")
    ∷ (0x07, "SMOD")
    ∷ (0x08, "EXP")
    ∷ (0x09, "NEG")
    ∷ (0x0a, "LT")
    ∷ (0x0b, "GT")
    ∷ (0x0c, "SLT")
    ∷ (0x0d, "SGT")
    ∷ (0x0e, "EQ")
    ∷ (0x0f, "NOT")
    ∷ (0x10, "AND")
    ∷ (0x11, "OR")
    ∷ (0x12, "XOR")
    ∷ (0x13, "BYTE")
    ∷ (0x14, "ADDMOD")
    ∷ (0x15, "MULMOD")
    ∷ (0x20, "SHA3")
    ∷ (0x21, "RLPDECODE")
    ∷ (0x22, "RLPENCODE")
    ∷ (0x30, "ADDRESS")
    ∷ (0x31, "BALANCE")
    ∷ (0x32, "ORIGIN")
    ∷ (0x33, "CALLER")
    ∷ (0x34, "CALLVALUE")
    ∷ (0x35, "CALLDATALOAD")
    ∷ (0x36, "CALLDATASIZE")
    ∷ (0x37, "CALLDATACOPY")
    ∷ (0x38, "CODESIZE")
    ∷ (0x39, "CODECOPY")
    ∷ (0x3a, "TXGASPRICE")
    ∷ (0x3d, "CALLSTACK")
    ∷ (0x3e, "CALLSTACKSIZE")
    ∷ (0x3f, "NONCE")
    ∷ (0x40, "PREVHASH")
    ∷ (0x41, "COINBASE")
    ∷ (0x42, "TIMESTAMP")
    ∷ (0x43, "NUMBER")
    ∷ (0x44, "DIFFICULTY")
    ∷ (0x45, "GASLIMIT")
    ∷ (0x46, "GENDOUG")
    ∷ (0x3c, "EXTCODESIZE")
    ∷ (0x3b, "EXTCODECOPY")
    ∷ (0x50, "POP")
    ∷ (0x53, "MLOAD")
    ∷ (0x54, "MSTORE")
    ∷ (0x55, "MSTORE8")
    ∷ (0x56, "SLOAD")
    ∷ (0x57, "SSTORE")
    ∷ (0x58, "JUMP")
    ∷ (0x59, "JUMPI")
    ∷ (0x5a, "PC")
    ∷ (0x5b, "MSIZE")
    ∷ (0x5c, "GAS")
    ∷ (0x60, "PUSH1")
    ∷ (0x61, "PUSH2")
    ∷ (0x62, "PUSH3")
    ∷ (0x63, "PUSH4")
    ∷ (0x64, "PUSH5")
    ∷ (0x65, "PUSH6")
    ∷ (0x66, "PUSH7")
    ∷ (0x67, "PUSH8")
    ∷ (0x68, "PUSH9")
    ∷ (0x69, "PUSH10")
    ∷ (0x6a, "PUSH11")
    ∷ (0x6b, "PUSH12")
    ∷ (0x6c, "PUSH13")
    ∷ (0x6d, "PUSH14")
    ∷ (0x6e, "PUSH15")
    ∷ (0x6f, "PUSH16")
    ∷ (0x70, "PUSH17")
    ∷ (0x71, "PUSH18")
    ∷ (0x72, "PUSH19")
    ∷ (0x73, "PUSH20")
    ∷ (0x74, "PUSH21")
    ∷ (0x75, "PUSH22")
    ∷ (0x76, "PUSH23")
    ∷ (0x77, "PUSH24")
    ∷ (0x78, "PUSH25")
    ∷ (0x79, "PUSH26")
    ∷ (0x7a, "PUSH27")
    ∷ (0x7b, "PUSH28")
    ∷ (0x7c, "PUSH29")
    ∷ (0x7d, "PUSH30")
    ∷ (0x7e, "PUSH31")
    ∷ (0x7f, "PUSH32")
    ∷ (0x80, "DUP1")
    ∷ (0x81, "DUP2")
    ∷ (0x82, "DUP3")
    ∷ (0x83, "DUP4")
    ∷ (0x84, "DUP5")
    ∷ (0x85, "DUP6")
    ∷ (0x86, "DUP7")
    ∷ (0x87, "DUP8")
    ∷ (0x88, "DUP9")
    ∷ (0x89, "DUP10")
    ∷ (0x8a, "DUP11")
    ∷ (0x8b, "DUP12")
    ∷ (0x8c, "DUP13")
    ∷ (0x8d, "DUP14")
    ∷ (0x8e, "DUP15")
    ∷ (0x8f, "DUP16")
    ∷ (0x90, "SWAP1")
    ∷ (0x91, "SWAP2")
    ∷ (0x92, "SWAP3")
    ∷ (0x93, "SWAP4")
    ∷ (0x94, "SWAP5")
    ∷ (0x95, "SWAP6")
    ∷ (0x96, "SWAP7")
    ∷ (0x97, "SWAP8")
    ∷ (0x98, "SWAP9")
    ∷ (0x99, "SWAP10")
    ∷ (0x9a, "SWAP11")
    ∷ (0x9b, "SWAP12")
    ∷ (0x9c, "SWAP13")
    ∷ (0x9d, "SWAP14")
    ∷ (0x9e, "SWAP15")
    ∷ (0x9f, "SWAP16")
    ∷ (0xf0, "CREATE")
    ∷ (0xf1, "CALL")
    ∷ (0xf2, "RETURN")
    ∷ (0xf3, "POST")
    ∷ (0xf4, "CALLSTATELESS")
    ∷ (0xfd, "LOGSTACK")
    ∷ (0xfe, "LOGMEM")
    ∷ (0xff, "SUICIDE")
    ∷ []
