-- ===== src/Vm.antt =====
-- monkvm: the virtual machine.
pub mod Opcodes
pub mod Stack
pub mod Memory
pub mod Closure
pub mod Gas
pub mod Arithmetic
pub mod Machine
pub mod Loop
