-- ===== src/Tests/WireRuns.antt =====
-- The theorems on the codecs, the messages of SSH and the deframer at small inputs.
use tlspuffin.Base.{
  ℕ, ◌+◌, ◌-◌, ◌<◌, ◌≤◌, ◌≡◌, Bool, true, ◌&&◌, List, [], ◌∷◌, ◌++◌, length, arith, ltb, All, ok,
}
use tlspuffin.Codec.Numbers.{get_encoding}
use tlspuffin.Codec.Laws.{IsLawful}
use tlspuffin.Codec.VectorLaws.{length-zeros}
use tlspuffin.Ssh.Messages.{SshMessage, kex_ecdh_init, message_codec}
use tlspuffin.Ssh.MessageLaws.{IsMessage, message_codec-IsLawful}
use tlspuffin.Ssh.Packets.{banner_bytes}
use tlspuffin.Ssh.WireLaws.{IsByte}
use tlspuffin.Ssh.Deframer.{new_deframer, max_wire_size, read_wire}
use tlspuffin.Ssh.BufferLaws.{pending}
use tlspuffin.Ssh.DeframerLaws.{Deframed}
use tlspuffin.Ssh.Lossless.{IsDeframer, read_wire-Deframed}

-- Bytes below 128 are UTF-8.
abbrev pub is_ascii : List ℕ → Bool
is_ascii [] = true
is_ascii (b ∷ bs) = ltb b 128 && is_ascii bs

message_codec-IsLawful_example : IsLawful (message_codec is_ascii) (IsMessage is_ascii)
message_codec-IsLawful_example = message_codec-IsLawful is_ascii

abbrev pub small_key : SshMessage
small_key = kex_ecdh_init (record { ephemeral_public_key = 1 ∷ 2 ∷ 3 ∷ [] })

pub small_key-short : length (get_encoding (message_codec is_ascii) small_key) + 8 < 16777216
unfolding get_encoding message_codec
small_key-short = omega arith

pub new_deframer-IsDeframer : IsDeframer new_deframer
unfolding new_deframer
new_deframer-IsDeframer = record { sized = length-zeros max_wire_size; within = omega arith }

abbrev pub chunk : List ℕ
chunk = banner_bytes ++ 1 ∷ 2 ∷ 3 ∷ []

chunk-fits : length chunk ≤ max_wire_size - new_deframer.used_bytes
unfolding max_wire_size new_deframer
chunk-fits = omega arith

new_deframer-pending : All IsByte (pending new_deframer)
unfolding new_deframer
new_deframer-pending = tt

pub chunk-IsByte : All IsByte chunk
chunk-IsByte = omega arith

read_wire-Deframed_example :
    ((read_wire {E = ℕ} (ok chunk) new_deframer).0 ≡ ok (length chunk))
    × Deframed
        (pending new_deframer ++ chunk)
        new_deframer
        (read_wire {E = ℕ} (ok chunk) new_deframer).1
read_wire-Deframed_example =
    read_wire-Deframed new_deframer chunk new_deframer-IsDeframer chunk-fits new_deframer-pending
      chunk-IsByte
