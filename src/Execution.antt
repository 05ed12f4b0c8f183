-- ===== src/Execution.antt =====
-- puffin/src/trace.rs, puffin/src/agent.rs, puffin/src/put.rs: the execution of a trace on the agents.
pub mod Monad
pub mod Put
pub mod Context
pub mod Agents
pub mod Spawning
pub mod Actions
pub mod Contract
pub mod Effects
pub mod AgentLaws
pub mod SpawnLaws
pub mod Refinement
pub mod History
pub mod Roles
pub mod Output
pub mod Drain
pub mod Settling
pub mod Totality
pub mod Termination
pub mod Errors
pub mod Assignment
