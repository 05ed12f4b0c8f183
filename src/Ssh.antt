-- ===== src/Ssh.antt =====
-- sshpuffin/src/ssh: the messages of SSH, the packets that carry them, and the deframer.
pub mod NameLists
pub mod Messages
pub mod MessageLaws
pub mod Packets
pub mod PacketLaws
pub mod Deframer
pub mod WireLaws
pub mod BufferLaws
pub mod DeframerLaws
pub mod Lossless
pub mod Streams
pub mod Framing
pub mod Knowledge
pub mod Libssh
