-- ===== src/Ssh/Framing.antt =====
-- sshpuffin/src/ssh/deframe.rs with message.rs: deframing takes framing back.
use tlspuffin.Base.{
  ℕ, zero, suc, ◌+◌, ◌≤◌, ◌<◌, ◌≡◌, refl, sym, ap, ◌∙◌, subst, true, List, [], ◌∷◌, ◌++◌, length,
  take, drop, Option, arith, ◌==◌, append-nil, append_assoc, length-append, drop-append,
  length-take_le, All, Bool-cases, inl, inr, ok,
}
use tlspuffin.Codec.Reader.{Reader, init, used}
use tlspuffin.Codec.Numbers.{get_encoding, u32_codec}
use tlspuffin.Ssh.Packets.{RawSshMessage, banner, packet, on_wire, raw_codec}
use tlspuffin.Ssh.PacketLaws.{IsRaw, raw_encoding, raw_codec-Reads}
use tlspuffin.Ssh.Deframer.{
  SshMessageDeframer, BufferContents, valid, invalid, partial_message, buf_consume, try_deframe_one,
  deframe_all, max_wire_size, read_wire,
}
use tlspuffin.Ssh.BufferLaws.{pending, buf_consume-Consumed}
use tlspuffin.Ssh.DeframerLaws.{wire, outcome}
use tlspuffin.Ssh.Lossless.{IsDeframer, received, pending-received}

pub raw_encoding_pos : (m : RawSshMessage) → IsRaw m → 0 < length (raw_encoding m)
unfolding get_encoding u32_codec
raw_encoding_pos (banner text) h = omega (arith, ap length h)
raw_encoding_pos (packet p) h = omega arith
raw_encoding_pos (on_wire slice) h = absurd h

-- A round takes the frame whose encoding stands first.
try_deframe_one-framed :
    (d : SshMessageDeframer) (m : RawSshMessage) (after : List ℕ)
    → IsRaw m
    → pending d ≡ raw_encoding m ++ after
    → try_deframe_one d
      ≡ (valid, buf_consume (length (raw_encoding m)) (record d { frames = d.frames ++ m ∷ [] }))
unfolding try_deframe_one raw_codec init used
try_deframe_one-framed d m after h e =
    let framed = record d { frames = d.frames ++ m ∷ [] } in
    ap (λ (p : Option RawSshMessage × Reader). outcome d p.0 p.1)
      ((raw_codec-Reads m h).reads (init (pending d)) after e)
    ∙ ap (λ n. (valid, buf_consume n framed)) (omega arith)

-- The fields that are not frames are those that a round and the loop set.
pub record Framed (d d' : SshMessageDeframer) (ms : List RawSshMessage) : Type 0 where
  pub frames_added : d'.frames ≡ d.frames ++ ms
  pub none_used : d'.used_bytes ≡ 0
  pub size_same : length d'.buf ≡ length d.buf

nothing-Framed :
    (d : SshMessageDeframer) (ms : List RawSshMessage)
    → All IsRaw ms
    → d.used_bytes ≡ 0
    → pending d ≡ wire ms
    → Framed d d ms
nothing-Framed d [] raws unused e = record {
  frames_added = sym (append-nil d.frames);
  none_used = unused;
  size_same = refl;
}
nothing-Framed d (m ∷ ms) raws unused e =
    let none_left : length (pending d) ≡ 0 = ap (λ n. length (take n d.buf)) unused in
    absurd (
      omega (
        arith,
        none_left,
        ap length e,
        length-append (raw_encoding m) (wire ms),
        raw_encoding_pos m raws.0,
      ))

-- What the loop makes of a round.
abbrev after_round : ℕ → BufferContents × SshMessageDeframer → SshMessageDeframer
after_round fuel p = elim p.0 [
  | invalid ↦ record p.1 { desynced = true }
  | valid ↦ deframe_all fuel p.1
  | partial_message ↦ p.1
]

-- Where the bytes in use are the encodings of messages that read back, the loop gives these messages.
abbrev Frames : ℕ → Type 0
Frames fuel =
    (d : SshMessageDeframer) (ms : List RawSshMessage)
    → d.used_bytes ≤ length d.buf
    → d.used_bytes ≤ fuel
    → All IsRaw ms
    → pending d ≡ wire ms
    → Framed d (deframe_all fuel d) ms

next_round :
    (fuel : ℕ) (d : SshMessageDeframer) (ms : List RawSshMessage)
    → Frames fuel
    → d.used_bytes ≤ length d.buf
    → d.used_bytes ≤ suc fuel
    → All IsRaw ms
    → pending d ≡ wire ms
    → 0 < d.used_bytes
    → Framed d (after_round fuel (try_deframe_one d)) ms
next_round fuel d [] loop fits enough raws e some_used =
    absurd (omega (arith, ap length e, length-take_le d.used_bytes d.buf fits))
next_round fuel d (m ∷ ms) loop fits enough raws e some_used =
    let n = length (raw_encoding m) in
    let framed = record d { frames = d.frames ++ m ∷ [] } in
    let d' = buf_consume n framed in
    let some_byte = raw_encoding_pos m raws.0 in
    let within : n ≤ d.used_bytes = omega (
      arith,
      ap length e,
      length-append (raw_encoding m) (wire ms),
      length-take_le d.used_bytes d.buf fits,
    ) in
    let consumed = buf_consume-Consumed n framed within fits in
    let left : pending d' ≡ wire ms =
      consumed.pending_dropped ∙ ap (drop n) e ∙ drop-append (raw_encoding m) (wire ms) in
    let rest =
      loop d' ms (omega (arith, consumed.used_less, consumed.size_same, fits))
        (omega (arith, consumed.used_less, some_byte, enough)) raws.1 left in
    subst (λ p. Framed d (after_round fuel p) (m ∷ ms))
      (sym (try_deframe_one-framed d m (wire ms) raws.0 e))
      (record {
        frames_added =
            rest.frames_added
            ∙ ap (λ fs. fs ++ ms) consumed.frames_same
            ∙ append_assoc d.frames (m ∷ []) ms;
        none_used = rest.none_used;
        size_same = rest.size_same ∙ consumed.size_same;
      })

deframe_all-Frames : (fuel : ℕ) → Frames fuel
unfolding deframe_all
deframe_all-Frames zero d ms fits enough raws e = nothing-Framed d ms raws (omega arith) e
deframe_all-Frames (suc fuel) d ms fits enough raws e = elim (Bool-cases (d.used_bytes == 0)) [
  | inl empty ↦ rw (empty, deframe_all) (nothing-Framed d ms raws (ground (arith, empty)) e)
  | inr some_used ↦
      rw (some_used, deframe_all)
        (next_round fuel d ms (deframe_all-Frames fuel) fits enough raws e
          (ground (arith, some_used)))
]

-- If the bytes that are read are the encodings of messages that are each the banner
-- SSH-2.0-libssh_0.10.90 with its CR LF, the only one that the code knows, or a packet without a
-- MAC, with less than 256 bytes of padding and with a packet length below 2^24, the buffer of a
-- deframer has its size and no byte in it, and they fit in it, then exactly these messages are
-- added to its frames, in their order, and no byte is left in the buffer, whose size is kept.
pub read_wire-Framed :
    (E : Type 0) (d : SshMessageDeframer) (ms : List RawSshMessage)
    → IsDeframer d
    → d.used_bytes ≡ 0
    → All IsRaw ms
    → length (wire ms) ≤ max_wire_size
    → Framed d (read_wire {E = E} (ok (wire ms)) d).1 ms
unfolding read_wire
read_wire-Framed E d ms h unused raws room =
    let (same, size) = pending-received (wire ms) d (omega (arith, h.sized, unused, room)) in
    let all = same ∙ ap (λ n. take n d.buf ++ wire ms) unused in
    let done =
      deframe_all-Frames (d.used_bytes + length (wire ms)) (received (wire ms) d) ms
        (omega (arith, size, h.sized, unused, room)) (omega arith) raws all in
    record {
      frames_added = done.frames_added;
      none_used = done.none_used;
      size_same = done.size_same ∙ size;
    }
