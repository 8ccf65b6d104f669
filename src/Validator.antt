-- ===== src/Validator.antt =====
-- validator.py: the checks that run on every output of the model, in their order.
pub mod Visual
pub mod Facts
pub mod Cta
pub mod Caption
pub mod Correction
