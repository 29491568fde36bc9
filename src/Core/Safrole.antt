-- ===== src/Core/Safrole.antt =====
-- Safrole: the tickets, their accumulator and the series of seals.
pub mod Tickets
pub mod Sorted
pub mod Accumulator
pub mod Sealing
pub mod Series
pub mod Epoch
