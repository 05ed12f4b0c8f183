-- ===== src/Stream/Defs.antt =====
-- puffin/src/stream.rs: `MemoryStream`, over the trait `ProtocolMessageDeframer` of puffin/src/protocol.rs.
use Prim.Native.String.{String}
use tlspuffin.Base.{
  ℕ, zero, suc, ◌+◌, List, [], ◌++◌, length, take, drop, replicate, ◌-◌, Option, none, some, Result,
  ok, err, ◌==◌, if◌then◌else◌,
}
use tlspuffin.Trace.Evaluation.{io}
use tlspuffin.Execution.Monad.{Stop, raised, out_of_fuel}
use tlspuffin.Execution.Put.{MessageResult}

-- The kinds of an `io::Error` that the code tells apart.
pub data IoError : Type 0 where
  would_block : IoError
  failed : String → IoError

-- A deframer takes frames off its queue, and reads from a slice of bytes.
pub record ProtocolMessageDeframer (D Opaque : Type 0) : Type 0 where
  pub pop_frame : D → Option Opaque × D
  pub read : List ℕ → D → Result IoError ℕ × D

-- `io::Cursor<Vec<u8>>`: a position in a vector.
pub record Channel : Type 0 where
  pub position : ℕ
  pub bytes : List ℕ

abbrev pub new_channel : Channel
new_channel = record { position = 0; bytes = [] }

-- `Cursor::read` into a buffer of a length, and `Cursor::write`, which fills a gap with zeros.
abbrev pub cursor_read : ℕ → Channel → List ℕ × Channel
cursor_read len c =
    let received = take len (drop c.position c.bytes) in
    (received, record c { position = c.position + length received })

abbrev pub cursor_write : List ℕ → Channel → Channel
cursor_write buf c = record {
  position = c.position + length buf;
  bytes =
      take c.position c.bytes
      ++ (replicate (c.position - length c.bytes) 0
          ++ (buf ++ drop (c.position + length buf) c.bytes));
}

pub record MemoryStream (D : Type 0) : Type 0 where
  pub inbound : Channel
  pub outbound : Channel
  pub deframer : D

module _ {D : Type 0} where
  unfoldable pub new_stream : D → MemoryStream D
  new_stream deframer = record {
    inbound = new_channel;
    outbound = new_channel;
    deframer = deframer;
  }

  -- `Read::read` into a buffer of a length.
  unfoldable pub read_stream : ℕ → MemoryStream D → Result IoError (List ℕ) × MemoryStream D
  read_stream len s =
      let (received, inbound) = cursor_read len s.inbound in
      let s' : MemoryStream D = record s {
        inbound = if inbound.position == length inbound.bytes then new_channel else inbound;
      } in
      (if length received == 0 then err would_block else ok received, s')

  -- `Write::write`
  unfoldable pub write_stream : List ℕ → MemoryStream D → Result IoError ℕ × MemoryStream D
  write_stream buf s = (ok (length buf), record s { outbound = cursor_write buf s.outbound })

module _ {D Opaque : Type 0} (encode : Opaque → List ℕ → List ℕ) where
  unfoldable pub add_message : Opaque → MemoryStream D → MemoryStream D
  add_message m s = record s { inbound = record s.inbound { bytes = encode m s.inbound.bytes } }

module _ {D Opaque : Type 0} (deframer : ProtocolMessageDeframer D Opaque) where
  -- The loop of `take_message_from_outbound`, on fuel.
  unfoldable pub next_frame : ℕ → MemoryStream D → Result Stop (Option Opaque) × MemoryStream D
  next_frame zero s = (err out_of_fuel, s)
  next_frame (suc fuel) s =
      let (frame, d) = deframer.pop_frame s.deframer in
      elim frame [
        | some opaque ↦ (ok (some opaque), record s { deframer = d })
        | none ↦
            let (result, d') = deframer.read s.outbound.bytes d in
            elim result [
              | ok v ↦
                  let s' : MemoryStream D = record s { outbound = new_channel; deframer = d' } in
                  if v == 0 then (ok none, s') else next_frame fuel s'
              | err would_block ↦ (ok none, record s { deframer = d' })
              | err (failed text) ↦ (err (raised (io text)), record s { deframer = d' })
            ]
      ]

  -- A message that does not decode is given without its structured form.
  unfoldable pub take_message :
      {Msg : Type 0}
      → (Opaque → Option Msg)
      → ℕ
      → MemoryStream D
      → Result Stop (Option (MessageResult Msg Opaque)) × MemoryStream D
  unfolding next_frame
  take_message try_into fuel s =
      let (result, s') = next_frame fuel s in
      elim result [
        | ok (some opaque) ↦
            (ok (some (record { message = try_into opaque; opaque_message = opaque })), s')
        | ok none ↦ (ok none, s')
        | err e ↦ (err e, s')
      ]
