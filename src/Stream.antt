-- ===== src/Stream.antt =====
-- puffin/src/stream.rs: the two channels of an agent in memory.
pub mod Defs
pub mod Queues
pub mod Outbound
