-- ===== src/Tests.antt =====
-- Tests and instances of the theorems on small inputs.
mod Fixtures
mod FuzzerRuns
mod SwapRuns
mod KnowledgeRuns
mod WireRuns
mod PolicyRuns
mod Echo
mod ExecutionRuns
mod StreamRuns
mod MatcherRuns
mod LibsshRuns
mod SealingRuns
