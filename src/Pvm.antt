-- ===== src/Pvm.antt =====
-- The interpreter of the polkadot virtual machine: packages/jam-pvm-js and packages/jam-pvm-base.
pub mod Words
pub mod Ops
pub mod Memory
pub mod Vm
pub mod Decoders
pub mod Ixdb
pub mod Handlers
pub mod Instructions
pub mod Run
pub mod Safety
