-- ===== src/Fuzzer.antt =====
-- puffin/src/fuzzer: the random choice of terms, the term zoo and the trace mutators.
pub mod Rand
pub mod Sampling
pub mod Enumeration
pub mod Positions
pub mod Reservoir
pub mod Choose
pub mod Zoo
pub mod ZooTerms
pub mod ZooLaws
pub mod Mutators
pub mod Places
pub mod Targets
pub mod Lifting
pub mod TypeSafety
pub mod SymbolSafety
pub mod Lengths
pub mod Swap
pub mod SwapSafety
