-- ===== src/Algebra.antt =====
-- puffin/src/algebra: typed function symbols, terms and their evaluation.
pub mod Shape
pub mod Term
pub mod Typing
pub mod Path
pub mod Reference
pub mod Subterms
pub mod Signature
