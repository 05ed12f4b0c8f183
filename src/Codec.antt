-- ===== src/Codec.antt =====
-- puffin/src/codec.rs: the reader of bytes and the codecs of numbers and vectors.
pub mod Reader
pub mod Numbers
pub mod Reads
pub mod Laws
pub mod Vectors
pub mod VectorLaws
pub mod Consumes
