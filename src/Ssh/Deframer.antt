-- ===== src/Ssh/Deframer.antt =====
-- sshpuffin/src/ssh/deframe.rs: the deframer. The buffer is an array of a fixed size, of which a prefix
-- is used.
use tlspuffin.Base.{
  ℕ, zero, suc, ◌+◌, ◌-◌, Bool, true, false, not, ◌||◌, List, [], ◌∷◌, ◌++◌, length, take, drop,
  replicate, Option, none, some, ltb, ◌==◌, if◌then◌else◌, Result, ok, err,
}
use tlspuffin.Codec.Reader.{init, used}
use tlspuffin.Codec.Vectors.{write_at}
use tlspuffin.Ssh.Packets.{RawSshMessage, on_wire, read_raw}

unfoldable pub max_wire_size : ℕ
max_wire_size = 35000

pub record SshMessageDeframer : Type 0 where
  pub frames : List RawSshMessage
  pub desynced : Bool
  pub buf : List ℕ
  pub used_bytes : ℕ

pub data BufferContents : Type 0 where
  invalid : BufferContents
  partial_message : BufferContents
  valid : BufferContents

unfoldable pub new_deframer : SshMessageDeframer
unfolding max_wire_size
new_deframer = record {
  frames = [];
  desynced = false;
  buf = replicate max_wire_size 0;
  used_bytes = 0;
}

unfoldable pub buf_consume : ℕ → SshMessageDeframer → SshMessageDeframer
buf_consume taken d =
    let pending = d.used_bytes - taken in
    if ltb taken d.used_bytes
    then (record d {
      buf = write_at 0 (take pending (drop taken d.buf)) d.buf;
      used_bytes = pending;
    })
    else if taken == d.used_bytes
    then (record d { used_bytes = 0 })
    else d

unfoldable pub try_deframe_one : SshMessageDeframer → BufferContents × SshMessageDeframer
unfolding buf_consume read_raw init used
try_deframe_one d =
    let bytes = take d.used_bytes d.buf in
    let (message, rd) = read_raw (init bytes) in
    elim message [
      | some m ↦ (valid, buf_consume (used rd) (record d { frames = d.frames ++ m ∷ [] }))
      | none ↦
          (valid, buf_consume d.used_bytes (record d { frames = d.frames ++ on_wire bytes ∷ [] }))
    ]

-- The loop of `read`. A round takes at least one byte, so that the used bytes are enough fuel.
unfoldable pub deframe_all : ℕ → SshMessageDeframer → SshMessageDeframer
unfolding try_deframe_one
deframe_all zero d = d
deframe_all (suc fuel) d =
    let (contents, d') = try_deframe_one d in
    if d.used_bytes == 0 then d else elim contents [
      | invalid ↦ record d' { desynced = true }
      | valid ↦ deframe_all fuel d'
      | partial_message ↦ d'
    ]

-- What the reader gives is an error or some bytes, no more than there is room for in the buffer.
unfoldable pub read_wire {ℓ} :
    {E : Type ℓ} → Result E (List ℕ) → SshMessageDeframer → Result E ℕ × SshMessageDeframer
unfolding deframe_all
read_wire (err e) d = (err e, d)
read_wire (ok new_bytes) d =
    let used_bytes = d.used_bytes + length new_bytes in
    (
      ok (length new_bytes),
      deframe_all used_bytes
          (record d { buf = write_at d.used_bytes new_bytes d.buf; used_bytes = used_bytes }),
    )

unfoldable pub has_pending : SshMessageDeframer → Bool
has_pending d = not (length d.frames == 0) || ltb 0 d.used_bytes

unfoldable pub pop_frame : SshMessageDeframer → Option RawSshMessage × SshMessageDeframer
pop_frame d = elim d.frames [ [] ↦ (none, d) | m ∷ ms ↦ (some m, record d { frames = ms }) ]
