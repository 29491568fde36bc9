-- ===== src/Core/Disputes/Safety.antt =====
-- What a disputes extrinsic that passed its checks does to the state psi.
pub mod Accepted
pub mod Unique
pub mod Disjoint
pub mod Punished
pub mod Once
