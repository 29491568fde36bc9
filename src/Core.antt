-- ===== src/Core.antt =====
-- packages/jam-core: the state of the chain.
pub mod Bytes
pub mod Constants
pub mod IdentitySet
pub mod Validators
pub mod Disputes
pub mod Slot
pub mod Entropy
pub mod Safrole
pub mod Shuffle
pub mod Guarantors
pub mod Reports
pub mod Accumulation
pub mod Rho
pub mod Chain
pub mod Merkle
pub mod Authorizers
pub mod Assurances
