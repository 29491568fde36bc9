-- ===== src/Codec.antt =====
-- The number codecs of packages/jam-codec.
pub mod Buffer
pub mod Ints
pub mod BitSequence
