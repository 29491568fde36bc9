-- ===== src/Pvm/Ops.antt =====
-- What the arithmetic instructions of packages/jam-pvm-js/src/instructions/instructions.ts compute:
-- each function takes the values of the source registers and of the immediate, and gives the value
-- that the handler stores into its destination register.
pub mod Imm
pub mod Regs
pub mod One
pub mod Bounds
pub mod Laws
