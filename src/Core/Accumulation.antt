-- ===== src/Core/Accumulation.antt =====
-- Which work reports are accumulated, and when.
pub mod Queue
pub mod Order
pub mod Progress
pub mod Kept
