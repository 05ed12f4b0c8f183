-- ===== src/Trace.antt =====
-- puffin/src/trace.rs: traces, the attacker's knowledge, and the evaluation of recipes.
pub mod Defs
pub mod Context
pub mod Evaluation
pub mod Lookup
pub mod Soundness
pub mod Matchers
