-- ===== src/Ssh/Streams.antt =====
-- sshpuffin/src/ssh/deframe.rs: the deframer as an implementation of `ProtocolMessageDeframer`.
use tlspuffin.Base.{ℕ, zero, suc, ◌-◌, ◌≡◌, refl, ap, [], length, take, Result, ok, arith}
use tlspuffin.Stream.Defs.{ProtocolMessageDeframer}
use tlspuffin.Stream.Outbound.{IsDeframing}
use tlspuffin.Ssh.Packets.{RawSshMessage}
use tlspuffin.Ssh.Deframer.{SshMessageDeframer, max_wire_size, read_wire, pop_frame}

-- The deframer reads from a slice, which gives as many bytes as there is room for.
unfoldable pub ssh_deframer : ProtocolMessageDeframer SshMessageDeframer RawSshMessage
unfolding pop_frame read_wire max_wire_size
ssh_deframer = record {
  pop_frame = pop_frame;
  read = λ slice d. read_wire (ok (take (max_wire_size - d.used_bytes) slice)) d;
}

take-nil : {A : Type 0} (n : ℕ) → take {A = A} n [] ≡ []
take-nil zero = refl
take-nil (suc n) = refl

pub ssh_deframer-IsDeframing : IsDeframing ssh_deframer
unfolding ssh_deframer read_wire
ssh_deframer-IsDeframing = record {
  at_empty = λ d v e.
      omega (arith, ap length (take-nil {A = ℕ} (max_wire_size - d.used_bytes)), ok_injective e);
}
  where
    ok_injective : {E : Type 0} {a b : ℕ} → ◌≡◌ {A = Result E ℕ} (ok a) (ok b) → a ≡ b
    ok_injective e = cc
