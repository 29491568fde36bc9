-- ===== src/Core/Disputes.antt =====
-- The disputes: packages/jam-core/src/impls/disputes-state-impl.ts and extrinsics/disputes.
pub mod Types
pub mod Verdicts
pub mod Accused
pub mod State
pub mod Safety
