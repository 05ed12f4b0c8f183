-- ===== src/Ssh/Libssh/Delivery.antt =====
-- sshpuffin/src/libssh/mod.rs with message.rs and deframe.rs: the messages of an agent, from
-- `create_opaque` over the socket and the deframer to what is taken.
use tlspuffin.Base.{
  ℕ, ◌+◌, ◌-◌, ◌≤◌, ◌<◌, ◌≡◌, refl, sym, ◌∙◌, ap, Bool, false, List, [], ◌∷◌, ◌++◌, length, map,
  Option, none, some, ok, err, ◌==◌, arith, length-append, All, append-nil,
}
use tlspuffin.Codec.Numbers.{get_encoding, bound, read_bytes}
use tlspuffin.Codec.Laws.{read_bytes-get_encoding}
use tlspuffin.Execution.Put.{MessageResult}
use tlspuffin.Stream.Defs.{IoError, would_block}
use tlspuffin.Ssh.Messages.{SshMessage, message_codec}
use tlspuffin.Ssh.MessageLaws.{IsMessage, message_codec-IsLawful}
use tlspuffin.Ssh.Packets.{RawSshMessage, create_opaque}
use tlspuffin.Ssh.PacketLaws.{IsRaw, raw_encoding}
use tlspuffin.Ssh.Deframer.{max_wire_size, read_wire}
use tlspuffin.Ssh.DeframerLaws.{wire}
use tlspuffin.Ssh.Framing.{read_wire-Framed, raw_encoding_pos}
use tlspuffin.Ssh.Libssh.Session.{Session}
use tlspuffin.Ssh.Libssh.Put.{LibSsl, next_wire, take_wire, decode_message}
use tlspuffin.Ssh.Libssh.Taking.{
  IsReady, received, after_read, chosen, next_wire-read, next_wire-failed, next_wire-waiting,
}

module _ (is_utf8 : List ℕ → Bool) where
  -- A valid message whose encoding is at least nine bytes shorter than 2^24.
  abbrev pub IsSendable : SshMessage → Type 0
  IsSendable m =
      IsMessage is_utf8 m × (length (get_encoding (message_codec is_utf8) m) + 8 < bound 3)

  create_opaque-IsRaw : (m : SshMessage) → IsSendable m → IsRaw (create_opaque is_utf8 m)
  unfolding create_opaque
  create_opaque-IsRaw m (valid, short) =
      (record { no_mac = refl; short_padding = omega arith; short = omega arith }, omega arith)

  decode_message-create_opaque :
      (m : SshMessage) → IsSendable m → decode_message is_utf8 (create_opaque is_utf8 m) ≡ some m
  unfolding create_opaque decode_message
  decode_message-create_opaque m (valid, short) =
      let codec = message_codec is_utf8 in
      ap (read_bytes codec) (sym (append-nil (get_encoding codec m)))
      ∙ read_bytes-get_encoding codec (message_codec-IsLawful is_utf8) m [] valid

  abbrev pub sent : SshMessage → MessageResult SshMessage RawSshMessage
  sent m = record { message = some m; opaque_message = create_opaque is_utf8 m }

  All-create_opaque :
      (ms : List SshMessage) → All IsSendable ms → All IsRaw (map (create_opaque is_utf8) ms)
  All-create_opaque [] h = tt
  All-create_opaque (m ∷ ms) h = (create_opaque-IsRaw m h.0, All-create_opaque ms h.1)

module _ {W Msg : Type 0} (session : Session W Msg) (is_utf8 : List ℕ → Bool) where
  -- The messages that are taken one after the other until there is none.
  pub data Takes
      : LibSsl W → List (MessageResult SshMessage RawSshMessage) → LibSsl W → Type 0 where
    nothing : (p q : LibSsl W) → take_wire session is_utf8 2 p ≡ (ok none, q) → Takes p [] q
    message :
        (p p' q : LibSsl W) (m : MessageResult SshMessage RawSshMessage)
        (ms : List (MessageResult SshMessage RawSshMessage))
        → take_wire session is_utf8 2 p ≡ (ok (some m), p')
        → Takes p' ms q
        → Takes p (m ∷ ms) q

  take_sent :
      (p p' : LibSsl W) (m : SshMessage)
      → IsSendable is_utf8 m
      → next_wire session 2 p ≡ (ok (some (create_opaque is_utf8 m)), p')
      → take_wire session is_utf8 2 p ≡ (ok (some (sent is_utf8 m)), p')
  unfolding take_wire
  take_sent p p' m sendable e =
      simp (take_wire, e)
        (ap
          (λ (x : Option SshMessage).
            (ok (some (record { message = x; opaque_message = create_opaque is_utf8 m })), p'))
          (decode_message-create_opaque is_utf8 m sendable))

  take_nothing :
      (p p' : LibSsl W)
      → next_wire session 2 p ≡ (ok none, p')
      → take_wire session is_utf8 2 p ≡ (ok none, p')
  unfolding take_wire
  take_nothing p p' e = simp (take_wire, e) refl

  -- The frames that wait are taken in their order, where nothing more comes in.
  waiting-Takes :
      (ms : List SshMessage) (p : LibSsl W)
      → All (IsSendable is_utf8) ms
      → p.deframer.frames ≡ map (create_opaque is_utf8) ms
      → (received session p).0 ≡ err would_block
      → (q : LibSsl W) × Takes p (map (sent is_utf8) ms) q
  waiting-Takes [] p sendable e quiet =
      let q = record p { world = (received session p).1 } in
      (q, nothing p q (take_nothing p q (next_wire-failed session 1 p would_block e quiet)))
  waiting-Takes (m ∷ ms) p sendable e quiet =
      let p' = record p {
        deframer = record p.deframer { frames = map (create_opaque is_utf8) ms };
      } in
      let run = take_sent p p' m sendable.0 (
        next_wire-waiting session 1 p (create_opaque is_utf8 m) (map (create_opaque is_utf8) ms)
          e) in
      let (q, rest) = waiting-Takes ms p' sendable.1 refl quiet in
      (q, message p p' q (sent is_utf8 m) (map (sent is_utf8) ms) run rest)

  abbrev on_the_wire : List SshMessage → List ℕ
  on_the_wire ms = wire (map (create_opaque is_utf8) ms)

  quiet_after :
      (p : LibSsl W) (bytes : List ℕ)
      → (read_wire {E = IoError} (ok bytes) p.deframer).1.used_bytes ≡ 0
      → (session.receive max_wire_size (received session p).1).0 ≡ err would_block
      → (received session (after_read session p bytes)).0 ≡ err would_block
  unfolding max_wire_size
  quiet_after p bytes unused quiet =
      ap (λ n. (session.receive (max_wire_size - n) (received session p).1).0) unused ∙ quiet

  -- If a deframer has no frame that waits and no byte in its buffer, the socket gives at one read
  -- the bytes of valid messages that `create_opaque` has packed, which fit in the buffer, and then
  -- has nothing more, then taking messages one after the other gives exactly these messages, each
  -- with its packet, in their order, and then none.
  pub create_opaque-Takes :
      (p : LibSsl W) (ms : List SshMessage)
      → IsReady p
      → p.deframer.frames ≡ []
      → All (IsSendable is_utf8) ms
      → length (on_the_wire ms) ≤ max_wire_size
      → (received session p).0 ≡ ok (on_the_wire ms)
      → (session.receive max_wire_size (received session p).1).0 ≡ err would_block
      → (q : LibSsl W) × Takes p (map (sent is_utf8) ms) q
  create_opaque-Takes p [] ready none_waits sendable room came quiet =
      let q = after_read session p [] in
      (q, nothing p q (take_nothing p q (next_wire-read session 1 p [] none_waits came)))
  create_opaque-Takes p (m ∷ ms) ready none_waits sendable room came quiet =
      let first = create_opaque is_utf8 m in
      let bytes = on_the_wire (m ∷ ms) in
      let raws = All-create_opaque is_utf8 (m ∷ ms) sendable in
      let done =
        read_wire-Framed IoError p.deframer (map (create_opaque is_utf8) (m ∷ ms)) ready.valid
          ready.none_used raws room in
      let p1 = after_read session p bytes in
      let waits : p1.deframer.frames ≡ first ∷ map (create_opaque is_utf8) ms =
        done.frames_added ∙ ap (λ fs. fs ++ map (create_opaque is_utf8) (m ∷ ms)) none_waits in
      let p2 = record p1 {
        deframer = record p1.deframer { frames = map (create_opaque is_utf8) ms };
      } in
      let some_read : (length bytes == 0) ≡ false = not_empty (
        omega (
          arith,
          raw_encoding_pos first raws.0,
          length-append (raw_encoding first) (on_the_wire ms),
        )) in
      let run = take_sent p p2 m sendable.0 (
        next_wire-read session 1 p bytes none_waits came
        ∙ ap (chosen session 1 p bytes) some_read
        ∙ next_wire-waiting session 0 p1 first (map (create_opaque is_utf8) ms) waits) in
      let (q, rest) =
        waiting-Takes ms p2 sendable.1 refl (quiet_after p bytes done.none_used quiet) in
      (q, message p p2 q (sent is_utf8 m) (map (sent is_utf8) ms) run rest)
    where
      not_empty : {n : ℕ} → 0 < n → (n == 0) ≡ false
      not_empty h = ground arith
