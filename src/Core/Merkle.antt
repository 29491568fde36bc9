-- ===== src/Core/Merkle.antt =====
-- The Merkle trie of the state, and the Merkle mountain range of the history.
pub mod Trie
pub mod Complete
pub mod Keys
pub mod Mountains
pub mod Peaks
