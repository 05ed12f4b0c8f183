-- ===== src/Ssh/Libssh/Put.antt =====
-- sshpuffin/src/libssh/mod.rs: the methods of the program under test. `none` is a panic.
use Prim.Native.String.{String}
use tlspuffin.Base.{
  ℕ, zero, suc, ◌-◌, Bool, List, Option, none, some, Result, ok, err, ◌==◌, if◌then◌else◌,
}
use tlspuffin.Agent.{AgentDescriptor, AgentType}
use tlspuffin.Codec.Numbers.{get_encoding}
use tlspuffin.Trace.Evaluation.{io}
use tlspuffin.Execution.Monad.{Stop, raised, out_of_fuel}
use tlspuffin.Execution.Put.{MessageResult}
use tlspuffin.Stream.Defs.{would_block, failed}
use tlspuffin.Ssh.Messages.{SshMessage}
use tlspuffin.Ssh.Packets.{RawSshMessage, banner, packet, on_wire, raw_codec, try_from}
use tlspuffin.Ssh.Deframer.{SshMessageDeframer, max_wire_size, read_wire, pop_frame}
use tlspuffin.Ssh.Libssh.Session.{SshResult, SshAuthResult, SshRequest, Session}

pub data PutState : Type 0 where
  exchanging_keys : PutState
  authenticating : PutState
  done : PutState

pub record LibSsl (W : Type 0) : Type 0 where
  pub world : W
  pub agent_descriptor : AgentDescriptor
  pub deframer : SshMessageDeframer
  pub state : PutState

-- The structured form of what was taken: that of a packet, where it decodes.
unfoldable pub decode_message : (List ℕ → Bool) → RawSshMessage → Option SshMessage
unfolding try_from
decode_message is_utf8 (packet p) = try_from is_utf8 p
decode_message is_utf8 (banner text) = none
decode_message is_utf8 (on_wire slice) = none

module _ {W Msg : Type 0} (session : Session W Msg) where
  unfoldable pub add_to_inbound : RawSshMessage → LibSsl W → Option (LibSsl W)
  unfolding raw_codec get_encoding
  add_to_inbound m p =
      let (result, world) = session.write_all (get_encoding raw_codec m) p.world in
      elim result [ ok u ↦ some (record p { world = world }) | err e ↦ none ]

  -- The loop of `take_message_from_outbound`, on fuel.
  unfoldable pub next_wire : ℕ → LibSsl W → Result Stop (Option RawSshMessage) × LibSsl W
  unfolding pop_frame read_wire max_wire_size
  next_wire zero p = (err out_of_fuel, p)
  next_wire (suc fuel) p =
      let (frame, d) = pop_frame p.deframer in
      elim frame [
        | some m ↦ (ok (some m), record p { deframer = d })
        | none ↦
            let (received, world) = session.receive (max_wire_size - d.used_bytes) p.world in
            let (result, d') = read_wire received d in
            let p' : LibSsl W = record p { world = world; deframer = d' } in
            elim result [
              | ok v ↦ if v == 0 then (ok none, p') else next_wire fuel p'
              | err would_block ↦ (ok none, p')
              | err (failed text) ↦ (err (raised (io text)), p')
            ]
      ]

  unfoldable pub take_wire :
      (List ℕ → Bool)
      → ℕ
      → LibSsl W
      → Result Stop (Option (MessageResult SshMessage RawSshMessage)) × LibSsl W
  unfolding next_wire decode_message
  take_wire is_utf8 fuel p =
      let (result, p') = next_wire fuel p in
      elim result [
        | ok (some m) ↦
            (ok (some (record { message = decode_message is_utf8 m; opaque_message = m })), p')
        | ok none ↦ (ok none, p')
        | err e ↦ (err e, p')
      ]

  -- What a key exchange came to.
  abbrev pub after_exchange : LibSsl W → Result String SshResult × W → Option (LibSsl W)
  after_exchange p (ok SshResult.ok, world) =
      some (record p { world = world; state = authenticating })
  after_exchange p (ok _, world) = some (record p { world = world })
  after_exchange p (err e, world) = none

  abbrev pub after_reply : LibSsl W → PutState → Result String (Unit {0}) × W → Option (LibSsl W)
  after_reply p state (ok u, world) = some (record p { world = world; state = state })
  after_reply p state (err e, world) = none

  abbrev pub reply_to : LibSsl W → Msg → W → Result String (Option SshRequest) → Option (LibSsl W)
  reply_to p message world (err e) = none
  reply_to p message world (ok (some SshRequest.request_auth)) =
      after_reply p done (session.auth_reply_success message world)
  reply_to p message world (ok _) = after_reply p p.state (session.reply_default message world)

  abbrev pub serve_message : LibSsl W → Option Msg × W → Option (LibSsl W)
  serve_message p (none, world) = some (record p { world = world })
  serve_message p (some message, world) = reply_to p message world (session.typ message)

  abbrev pub after_password : LibSsl W → Result String SshAuthResult × W → Option (LibSsl W)
  after_password p (ok SshAuthResult.success, world) =
      some (record p { world = world; state = done })
  after_password p (ok _, world) = some (record p { world = world })
  after_password p (err e, world) = none

  abbrev pub progress_in : AgentType → PutState → LibSsl W → Option (LibSsl W)
  progress_in AgentType.server exchanging_keys p =
      after_exchange p (session.handle_key_exchange p.world)
  progress_in AgentType.server authenticating p = serve_message p (session.get_message p.world)
  progress_in AgentType.client exchanging_keys p = after_exchange p (session.connect p.world)
  progress_in AgentType.client authenticating p =
      after_password p (session.userauth_password p.world)
  progress_in _ done p = some p

  unfoldable pub progress : LibSsl W → Option (LibSsl W)
  progress p = progress_in p.agent_descriptor.typ p.state p

  unfoldable pub is_state_successful : LibSsl W → Bool
  is_state_successful p = session.is_authenticated p.world
