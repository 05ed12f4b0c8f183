-- ===== src/Ssh/Libssh.antt =====
-- sshpuffin/src/libssh/mod.rs: the program under test over libssh.
pub mod Session
pub mod Put
pub mod Taking
pub mod Lossless
pub mod Delivery
pub mod States
