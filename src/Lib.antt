-- ===== src/Lib.antt =====
-- tlspuffin: a fuzzer for implementations of cryptographic protocols. It represents messages as terms
-- over a typed signature (puffin/src/algebra), an attack as a trace of steps that feed evaluated terms
-- to agents (puffin/src/trace.rs), and mutates traces (puffin/src/fuzzer).
--
-- Base: Boolean tests on numbers, lists and results over the native numbers, for all modules.
-- Agent: agent names and descriptors, of puffin/src/agent.rs.
-- Algebra: puffin/src/algebra. Shape has the shapes of types and functions and the wrapper that
-- `dynamic_fn!` makes of a function; a boxed value is of a parameter type `V` with a function that
-- reads its type id. Term has the terms, Typing what a well-typed term is, Subterms the trait
-- `Subterms`, Signature the tables of function symbols. Path and Reference have the mutable references
-- into a term, of puffin/src/fuzzer/mutations.rs: a reference is the subterm and a function that gives
-- the whole after a write.
-- Trace: Defs has the traces of puffin/src/trace.rs, Context the knowledge, the claims of
-- puffin/src/claims.rs and `find_variable`, Evaluation `Term::evaluate`; Lookup and Soundness have
-- the theorems on them. The matchers are a parameter type with the operations of the trait `Matcher`;
-- Matchers has what they are relied on for.
-- Execution: the execution of a trace, puffin/src/trace.rs, with puffin/src/agent.rs, put.rs,
-- put_registry.rs and protocol.rs. Put has the interface of a PUT and what a protocol defines, Contract
-- what is relied on of PUTs and factories; Monad the methods of the context, which give it back also
-- when they fail; Context and Agents the context and its operations, Spawning `spawn_agents`, Actions the
-- input and output actions and `Trace::execute`. Effects has the changes of a context as a step
-- relation, AgentLaws, SpawnLaws and Refinement that the code makes no other; History, Roles, Output,
-- Drain, Settling, Totality, Termination, Errors and Assignment have further theorems.
-- Stream: puffin/src/stream.rs over the trait ProtocolMessageDeframer. Defs has the stream in memory, Queues
-- its two channels as queues of bytes, Outbound the loop of `take_message_from_outbound`.
-- Fuzzer: Rand is the interface of LibAFL's random numbers, a parameter with the ranges of its results.
-- Sampling has `reservoir_sample`, Choose the functions of `util` that choose a term, Zoo
-- puffin/src/fuzzer/term_zoo.rs, and Mutators the seven mutators of puffin/src/fuzzer/mutations.rs.
-- Enumeration, Positions, Reservoir, Places, Targets, Lifting, TypeSafety, SymbolSafety, Lengths, Swap,
-- SwapSafety, ZooTerms and ZooLaws have the theorems.
-- Codec: puffin/src/codec.rs. Reader has the reader, Numbers the trait `Codec` as a record and the
-- codecs of numbers, Vectors those of vectors. Reads and Consumes say what a read takes, forwards from
-- an encoding and backwards from a result; Laws has the interface that the codecs of numbers and, in
-- VectorLaws, of vectors fill.
-- Ssh: sshpuffin/src/ssh. NameLists, Messages and Packets have message.rs, Deframer has deframe.rs.
-- MessageLaws, PacketLaws, WireLaws, BufferLaws, DeframerLaws and Lossless have the theorems. Strings
-- are their bytes, and whether bytes are UTF-8 is a parameter. Streams has the deframer as an implementation
-- of ProtocolMessageDeframer, Framing that deframing takes encoding back. Knowledge
-- has what messages give to the knowledge, and fn_message.rs. Libssh is the program under test of
-- sshpuffin/src/libssh/mod.rs: Session the calls of libssh and of the socket, which are parameters, Put
-- its methods, Taking, Lossless, Delivery and States the theorems.
-- Tls: tlspuffin/src. Claims has the claims of claims.rs, Policy tls/violation.rs with the two
-- certificates as parameters, Agreement what two parties agree on, PolicyLaws the theorems.
-- Query has query.rs over the types of messages as parameters, ClaimValues the claims as values of Rust
-- types; QueryLaws and ClaimLaws have the theorems on them. KeySchedule has
-- tls/key_exchange.rs, tls/key_schedule.rs and what tls/fn_fields.rs verifies with them, Sealing the symbols
-- of tls/fn_utils.rs that encrypt and decrypt in TLS 1.3, over the copy of rustls as a parameter;
-- SealingLaws has the theorems.
-- Tests: instances of the theorems at small inputs.
--
-- State. A mutator takes the trace and the generator and returns both; a panic is an outcome of its
-- own. The explicit stack of `reservoir_sample` is a list with its top at the head; its loop takes as
-- fuel the size of the recipe, which is enough since a round takes one subterm off the stack. The
-- recursion of `generate_term` is on the depth that remains, as in the source.
--
-- A read of a codec takes the reader and returns it with the result, also when it fails. The loop over
-- the items of a vector takes as fuel the number of bytes, since an item takes a byte at least; the loop
-- of the deframer takes the used bytes as fuel, since a round takes a byte at least.
--
-- The loop of `OutputAction::output` takes messages from a PUT until it has none. It is on fuel, and to run
-- out of it is an outcome of its own. The context holds the claims, to which PUTs hold a shared
-- reference: every method of a PUT takes the list and returns it.
-- The loops that take a message from a stream and from a socket are on fuel as well, and two rounds are
-- enough: the first read clears the channel of a stream, and bytes from a socket make a frame.
--
-- Not modelled: the vendored copies of rustls and russh, bindings to C libraries, printing,
-- serialisation, logging and the set-up of LibAFL; of the TLS function symbols those that only build
-- messages of rustls, and those for TLS 1.2, binders, tickets and certificates; the seeds, which are data.
pub mod Base
pub mod Agent
pub mod Algebra
pub mod Trace
pub mod Execution
pub mod Stream
pub mod Fuzzer
pub mod Codec
pub mod Ssh
pub mod Tls
mod Tests
