-- ===== src/Tests/LibsshRuns.antt =====
-- The theorems on the program under test over libssh at a small session.
use tlspuffin.Base.{
  ℕ, zero, suc, ◌+◌, ◌%◌, ◌≤◌, ◌<◌, ◌≡◌, ◌≢◌, refl, List, [], ◌∷◌, length, take, drop, map, some,
  Result, ok, err, arith, All, true, subst,
}
use tlspuffin.Agent.{TlsVersion, new_server}
use tlspuffin.Execution.Monad.{out_of_fuel}
use tlspuffin.Stream.Defs.{IoError, would_block}
use tlspuffin.Codec.Numbers.{get_encoding, u8_codec, u32_codec}
use tlspuffin.Ssh.Messages.{SshMessage, new_keys, message_codec}
use tlspuffin.Ssh.Packets.{RawSshMessage, BinaryPacket, banner, banner_bytes, packet, create_opaque}
use tlspuffin.Ssh.PacketLaws.{IsRaw}
use tlspuffin.Ssh.Framing.{Framed, read_wire-Framed}
use tlspuffin.Ssh.WireLaws.{IsByte}
use tlspuffin.Ssh.Deframer.{new_deframer, max_wire_size, read_wire}
use tlspuffin.Ssh.DeframerLaws.{wire}
use tlspuffin.Ssh.Libssh.Session.{SshResult, SshAuthResult, SshRequest, Session}
use tlspuffin.Ssh.Libssh.Put.{
  LibSsl, exchanging_keys, authenticating, done, next_wire, take_wire, progress,
}
use tlspuffin.Ssh.Libssh.Lossless.{Gives, take_wire-Gives}
use tlspuffin.Ssh.Libssh.Taking.{IsSocket, IsReady, received, next_wire_terminates}
use tlspuffin.Ssh.Libssh.Delivery.{IsSendable, sent, Takes, create_opaque-Takes}
use tlspuffin.Ssh.Libssh.States.{
  Calls, here, call, Exchanged, ReachesAuthenticated, Calls-Exchanged,
}
use tlspuffin.Tests.WireRuns.{is_ascii, small_key, small_key-short, new_deframer-IsDeframer}

abbrev receive_from : ℕ → List ℕ → Result IoError (List ℕ) × List ℕ
receive_from n [] = (err would_block, [])
receive_from n (b ∷ bs) = (ok (map (λ x. x % 256) (take n (b ∷ bs))), drop n (b ∷ bs))

-- A session that agrees to everything, with the bytes in the socket as its state.
abbrev agreeing : Session (List ℕ) ℕ
agreeing = record {
  handle_key_exchange = λ w. (ok SshResult.ok, w);
  connect = λ w. (ok SshResult.again, w);
  userauth_password = λ w. (ok SshAuthResult.success, w);
  get_message = λ w. (some 1, w);
  typ = λ m. ok (some SshRequest.request_auth);
  auth_reply_success = λ m w. (ok tt, w);
  reply_default = λ m w. (ok tt, w);
  is_authenticated = λ w. true;
  receive = receive_from;
  write_all = λ bytes w. (ok tt, w);
}

as_bytes-IsByte : (xs : List ℕ) → All IsByte (map (λ x. x % 256) xs)
as_bytes-IsByte [] = tt
as_bytes-IsByte (x ∷ xs) = (omega arith, as_bytes-IsByte xs)

as_bytes-length : (n : ℕ) (xs : List ℕ) → length (map (λ x. x % 256) (take n xs)) ≤ n
as_bytes-length zero xs = omega arith
as_bytes-length (suc n) [] = omega arith
as_bytes-length (suc n) (x ∷ xs) = omega (arith, as_bytes-length n xs)

agreeing-IsSocket : IsSocket agreeing
agreeing-IsSocket = record { at_receive = fits }
  where
    fits :
        (n : ℕ) (w bytes : List ℕ)
        → (receive_from n w).0 ≡ ok bytes
        → (length bytes ≤ n) × All IsByte bytes
    fits n [] bytes e = cc
    fits n (b ∷ bs) bytes e =
        let same : map (λ x. x % 256) (take n (b ∷ bs)) ≡ bytes = cc in
        subst (λ xs. (length xs ≤ n) × All IsByte xs) same
          (as_bytes-length n (b ∷ bs), as_bytes-IsByte (take n (b ∷ bs)))

abbrev put_of : List ℕ → LibSsl (List ℕ)
put_of bytes = record {
  world = bytes;
  agent_descriptor = new_server 0 TlsVersion.v1_3;
  deframer = new_deframer;
  state = exchanging_keys;
}

put_of-IsReady : (bytes : List ℕ) → IsReady (put_of bytes)
unfolding new_deframer
put_of-IsReady bytes = record { valid = new_deframer-IsDeframer; none_used = refl }

next_wire_terminates_example :
    ((next_wire agreeing 2 (put_of (1 ∷ 2 ∷ 3 ∷ []))).0 ≢ err out_of_fuel)
    × (next_wire agreeing 9 (put_of (1 ∷ 2 ∷ 3 ∷ []))
        ≡ next_wire agreeing 2 (put_of (1 ∷ 2 ∷ 3 ∷ [])))
next_wire_terminates_example =
    next_wire_terminates agreeing agreeing-IsSocket 7 (put_of (1 ∷ 2 ∷ 3 ∷ []))
      (put_of-IsReady (1 ∷ 2 ∷ 3 ∷ []))

take_wire-Gives_example :
    let out = take_wire agreeing is_ascii 2 (put_of (1 ∷ 2 ∷ 3 ∷ [])) in
    IsReady out.1
    × (out.1.state ≡ (put_of (1 ∷ 2 ∷ 3 ∷ [])).state)
    × Gives agreeing is_ascii (put_of (1 ∷ 2 ∷ 3 ∷ [])) out
take_wire-Gives_example =
    take_wire-Gives agreeing is_ascii agreeing-IsSocket (put_of (1 ∷ 2 ∷ 3 ∷ []))
      (put_of-IsReady (1 ∷ 2 ∷ 3 ∷ []))

abbrev two_messages : List SshMessage
two_messages = small_key ∷ new_keys ∷ []

abbrev two_sent : List ℕ
two_sent = wire (map (create_opaque is_ascii) two_messages)

none_waits : (put_of two_sent).deframer.frames ≡ []
unfolding new_deframer
none_waits = refl

new_keys-short : length (get_encoding (message_codec is_ascii) new_keys) + 8 < 16777216
unfolding get_encoding message_codec
new_keys-short = omega arith

two_messages-IsSendable : All (IsSendable is_ascii) two_messages
two_messages-IsSendable = ((omega arith, small_key-short), ((tt, new_keys-short), tt))

two_sent-short : length two_sent ≤ max_wire_size
unfolding max_wire_size create_opaque
two_sent-short = omega arith

two_came : (received agreeing (put_of two_sent)).0 ≡ ok two_sent
unfolding max_wire_size create_opaque new_deframer
two_came = refl

quiet_then :
    (receive_from max_wire_size (received agreeing (put_of two_sent)).1).0 ≡ err would_block
unfolding max_wire_size create_opaque new_deframer
quiet_then = refl

create_opaque-Takes_example :
    (q : LibSsl (List ℕ)) × Takes agreeing is_ascii
      (put_of two_sent)
      (map (sent is_ascii) two_messages)
      q
create_opaque-Takes_example =
    create_opaque-Takes agreeing is_ascii (put_of two_sent) two_messages (put_of-IsReady two_sent)
      none_waits two_messages-IsSendable two_sent-short two_came quiet_then

abbrev after_one : LibSsl (List ℕ)
after_one = record (put_of []) { state = authenticating }

abbrev after_two : LibSsl (List ℕ)
after_two = record (put_of []) { state = done }

full_run : Calls agreeing (put_of []) after_two
unfolding progress new_server
full_run =
    call (put_of []) after_one after_two refl
      (call after_one after_two after_two refl (here after_two))

Calls-Exchanged_example :
    (a b : LibSsl (List ℕ)) × Calls agreeing (put_of []) a
    × (progress agreeing a ≡ some b)
    × Exchanged agreeing a
    × ReachesAuthenticated agreeing b after_two
Calls-Exchanged_example = Calls-Exchanged agreeing (put_of []) after_two full_run refl refl

none_used : new_deframer.used_bytes ≡ 0
unfolding new_deframer
none_used = refl

abbrev small_packet : BinaryPacket
small_packet = record { payload = 1 ∷ 2 ∷ []; random_padding = 0 ∷ []; mac = [] }

abbrev two_raws : List RawSshMessage
two_raws = banner banner_bytes ∷ packet small_packet ∷ []

two_raws-IsRaw : All IsRaw two_raws
two_raws-IsRaw = (
  refl,
  ((record { no_mac = refl; short_padding = omega arith; short = omega arith }, omega arith), tt),
)

two_raws-short : length (wire two_raws) ≤ max_wire_size
unfolding max_wire_size get_encoding u32_codec u8_codec
two_raws-short = omega arith

read_wire-Framed_example :
    Framed new_deframer (read_wire {E = ℕ} (ok (wire two_raws)) new_deframer).1 two_raws
read_wire-Framed_example =
    read_wire-Framed ℕ new_deframer two_raws new_deframer-IsDeframer none_used two_raws-IsRaw
      two_raws-short
