-- ===== src/Tests/StreamRuns.antt =====
-- The theorems on streams in memory at small inputs.
use tlspuffin.Base.{
  ℕ, zero, suc, ◌≡◌, ◌≢◌, refl, ap, List, [], ◌∷◌, ◌++◌, length, take, Option, sym, ◌∙◌, Result,
  none, some, ok, err, arith,
}
use tlspuffin.Execution.Monad.{out_of_fuel}
use tlspuffin.Stream.Defs.{
  IoError, ProtocolMessageDeframer, MemoryStream, new_channel, new_stream, next_frame, take_message,
}
use tlspuffin.Stream.Queues.{
  Call, feed, pull, push, run_stream, run_queues, view, IsStream, run_stream-run_queues,
}
use tlspuffin.Stream.Outbound.{next_frame_terminates, IsReading, keep_written, take_message_loses}
use tlspuffin.Ssh.Packets.{RawSshMessage, banner, banner_bytes, raw_codec}
use tlspuffin.Ssh.PacketLaws.{raw_encoding, raw_codec-appends}
use tlspuffin.Ssh.Deframer.{SshMessageDeframer, new_deframer}
use tlspuffin.Ssh.Streams.{ssh_deframer, ssh_deframer-IsDeframing}
use tlspuffin.Tests.WireRuns.{chunk}

abbrev fresh : MemoryStream SshMessageDeframer
fresh = new_stream new_deframer

abbrev calls : List (Call RawSshMessage)
calls =
    feed (banner banner_bytes)
    ∷ pull 5
    ∷ push (1 ∷ 2 ∷ [])
    ∷ pull 1000
    ∷ pull 3
    ∷ push (3 ∷ [])
    ∷ []

fresh-IsStream : IsStream fresh
unfolding new_stream
fresh-IsStream = record { within = omega arith; at_end = refl }

run_stream-run_queues_example :
    let (rs, s') = run_stream raw_codec.encode calls fresh in
    IsStream s' × ((rs, view s') ≡ run_queues raw_encoding calls (view fresh))
run_stream-run_queues_example =
    run_stream-run_queues raw_codec.encode raw_encoding raw_codec-appends calls fresh fresh-IsStream

-- A stream to whose other side an agent has written some bytes.
abbrev sent : List ℕ → MemoryStream SshMessageDeframer
sent bytes = record {
  inbound = new_channel;
  outbound = record { position = length bytes; bytes = bytes };
  deframer = new_deframer;
}

next_frame_terminates_example :
    ((next_frame ssh_deframer 2 (sent chunk)).0 ≢ err out_of_fuel)
    × (next_frame ssh_deframer 5 (sent chunk) ≡ next_frame ssh_deframer 2 (sent chunk))
next_frame_terminates_example =
    next_frame_terminates ssh_deframer ssh_deframer-IsDeframing 3 (sent chunk)

-- A deframer with room for four bytes, each of which is a frame.
abbrev pop_byte : List ℕ → Option ℕ × List ℕ
pop_byte [] = (none, [])
pop_byte (b ∷ bs) = (some b, bs)

abbrev four_bytes : ProtocolMessageDeframer (List ℕ) ℕ
four_bytes = record {
  pop_frame = pop_byte;
  read = λ slice d. (ok (length (take 4 slice)), d ++ take 4 slice);
}

take_taken : (n : ℕ) (xs : List ℕ) → take n (take (length (take n xs)) xs) ≡ take n xs
take_taken zero xs = refl
take_taken (suc n) [] = refl
take_taken (suc n) (x ∷ xs) = ap (◌∷◌ x) (take_taken n xs)

four_bytes-IsReading : IsReading four_bytes
four_bytes-IsReading = record {
  at_prefix = λ d d' bytes v e.
      let taken : length (take 4 bytes) ≡ v = ok_injective (ap (λ out. out.0) e) in
      let same = ap (λ n. take 4 (take n bytes)) (sym taken) ∙ take_taken 4 bytes in
      ap (λ (xs : List ℕ). (ok (length xs), d ++ xs)) same ∙ e;
}
  where
    ok_injective : {a b : ℕ} → ◌≡◌ {A = Result IoError ℕ} (ok a) (ok b) → a ≡ b
    ok_injective e = cc

abbrev six_written : MemoryStream (List ℕ)
six_written = record {
  inbound = new_channel;
  outbound = record { position = 6; bytes = 1 ∷ 2 ∷ 3 ∷ 4 ∷ 5 ∷ 6 ∷ [] };
  deframer = [];
}

take_message_loses_example :
    (take_message four_bytes (λ m. some m) 2 six_written
      ≡ take_message four_bytes (λ m. some m) 2 (keep_written four_bytes 4 six_written))
    × ((take_message four_bytes (λ m. some m) 2 six_written).1.outbound ≡ new_channel)
take_message_loses_example =
    take_message_loses four_bytes (λ m. some m) four_bytes-IsReading 1 4 six_written
      (1 ∷ 2 ∷ 3 ∷ 4 ∷ []) refl refl
