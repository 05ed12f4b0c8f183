-- ===== src/Ssh/Lossless.antt =====
-- sshpuffin/src/ssh/deframe.rs, `read`: the bytes of the new frames.
use tlspuffin.Base.{
  ℕ, ◌+◌, ◌-◌, ◌≤◌, ◌≡◌, refl, sym, ap, ◌∙◌, subst, List, ◌++◌, length, take, drop, arith,
  append_assoc, length-append, take-append, length-take_le, length-drop, All, All-append, ok,
}
use tlspuffin.Codec.Vectors.{write_at}
use tlspuffin.Ssh.WireLaws.{IsByte}
use tlspuffin.Ssh.Deframer.{SshMessageDeframer, max_wire_size, read_wire}
use tlspuffin.Ssh.BufferLaws.{pending}
use tlspuffin.Ssh.DeframerLaws.{Deframed, deframe_all-Deframed}

-- The buffer has its fixed size, and the bytes in use are within it.
pub record IsDeframer (d : SshMessageDeframer) : Type 0 where
  pub sized : length d.buf ≡ max_wire_size
  pub within : d.used_bytes ≤ max_wire_size

abbrev pub received : List ℕ → SshMessageDeframer → SshMessageDeframer
received bytes d = record d {
  buf = write_at d.used_bytes bytes d.buf;
  used_bytes = d.used_bytes + length bytes;
}

pub pending-received :
    (bytes : List ℕ) (d : SshMessageDeframer)
    → d.used_bytes + length bytes ≤ length d.buf
    → (pending (received bytes d) ≡ pending d ++ bytes)
      × (length (received bytes d).buf ≡ length d.buf)
pending-received bytes d room =
    let tail = drop (d.used_bytes + length bytes) d.buf in
    let size = length-take_le d.used_bytes d.buf (omega (arith, room)) in
    let both = length-append (pending d) bytes in
    let front : d.used_bytes + length bytes ≡ length (pending d ++ bytes) =
      omega (arith, size, both) in
    let tail_size = length-drop (d.used_bytes + length bytes) d.buf in
    (
      ap (take (d.used_bytes + length bytes)) (sym (append_assoc (pending d) bytes tail))
          ∙ ap (λ n. take n ((pending d ++ bytes) ++ tail)) front
          ∙ take-append (pending d ++ bytes) tail,
      omega (
        arith,
        length-append (pending d) (bytes ++ tail),
        length-append bytes tail,
        size,
        tail_size,
        room,
      ),
    )

-- A read of bytes that fit in the buffer of a deframer gives their number and adds frames behind
-- the old ones whose encodings, one after the other, are the bytes that were pending and those that
-- were read; no byte stays in the buffer, and the flag `desynced` does not change.
pub read_wire-Deframed :
    {E : Type 0} (d : SshMessageDeframer) (bytes : List ℕ)
    → IsDeframer d
    → length bytes ≤ max_wire_size - d.used_bytes
    → All IsByte (pending d)
    → All IsByte bytes
    → ((read_wire {E = E} (ok bytes) d).0 ≡ ok (length bytes))
      × Deframed (pending d ++ bytes) d (read_wire {E = E} (ok bytes) d).1
unfolding read_wire max_wire_size
read_wire-Deframed d bytes h room small_before small =
    let (same, size) = pending-received bytes d (omega (arith, h.sized, h.within, room)) in
    let small_all =
      subst (All IsByte) (sym same) (All-append IsByte (pending d) bytes small_before small) in
    let done =
      deframe_all-Deframed (d.used_bytes + length bytes) (received bytes d)
        (omega (arith, size, h.sized, h.within, room)) (omega (arith, size, h.sized)) (omega arith)
        small_all in
    (
      refl,
      record {
        new_frames = done.new_frames;
        frames_added = done.frames_added;
        lossless = done.lossless ∙ same;
        few_frames = omega (arith, done.few_frames, ap length same);
        none_used = done.none_used;
        desynced_same = done.desynced_same;
        size_same = done.size_same ∙ size;
      },
    )
