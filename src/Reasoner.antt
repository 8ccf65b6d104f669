-- ===== src/Reasoner.antt =====
-- reasoner.py: from an envelope to a callback, by calls of the language model.
pub mod Resources
pub mod Assembly
pub mod Single
pub mod Multi
pub mod Pairing
pub mod Clone
pub mod Fanout
