-- ===== src/Tests.antt =====
-- Runs of the models on concrete values.
pub mod Buffer
pub mod Codec
pub mod Pvm
pub mod Values
pub mod Registry
pub mod Disputes
pub mod Safrole
pub mod Accumulation
pub mod Chain
pub mod Merkle
pub mod Assurances
pub mod Memory
