-- ===== src/Ssh/Packets.antt =====
-- sshpuffin/src/ssh/message.rs: binary packets, and what is on the wire: a banner, a packet, or bytes
-- that are neither.
use tlspuffin.Base.{
  bytes_eq, ℕ, ◌+◌, ◌-◌, ◌%◌, ◌^◌, Bool, false, List, [], ◌∷◌, ◌++◌, length, replicate, Option,
  none, some, if◌then◌else◌,
}
use tlspuffin.Codec.Reader.{Reader, Read, ◌>>=◌, pure, take_bytes, peek}
use tlspuffin.Codec.Numbers.{Codec, u8_codec, u32_codec, read_bytes, get_encoding}
use tlspuffin.Ssh.Messages.{SshMessage, message_codec}

pub record BinaryPacket : Type 0 where
  pub payload : List ℕ
  pub random_padding : List ℕ
  pub mac : List ℕ

pub data RawSshMessage : Type 0 where
  banner : List ℕ → RawSshMessage
  packet : BinaryPacket → RawSshMessage
  on_wire : List ℕ → RawSshMessage

-- The subtraction on usize, of 64 bits, wraps around in a release build, where a debug build panics.
unfoldable pub payload_length_of : ℕ → ℕ → ℕ
payload_length_of packet_length padding_length =
    (packet_length + 2 ^ 64 - padding_length - 1) % 2 ^ 64

unfoldable pub packet_codec : Codec BinaryPacket
unfolding payload_length_of u8_codec u32_codec take_bytes
packet_codec = record {
  encode = λ p bytes.
      let padding_length = length p.random_padding in
      let packet_length = length p.payload + padding_length + 1 in
      let header =
        u8_codec.encode (padding_length % 2 ^ 8)
          (u32_codec.encode (packet_length % 2 ^ 32) bytes) in
      ((header ++ p.payload) ++ p.random_padding) ++ p.mac;
  read = (do
    packet_length ← u32_codec.read
    padding_length ← u8_codec.read
    payload ← take_bytes (payload_length_of packet_length padding_length)
    random_padding ← take_bytes padding_length
    mac ← take_bytes 0
    pure (record { payload = payload; random_padding = random_padding; mac = mac }));
}

-- "SSH-2.0-libssh_0.10.90\r\n".
abbrev pub banner_bytes : List ℕ
banner_bytes =
    83 ∷ 83 ∷ 72 ∷ 45 ∷ 50 ∷ 46 ∷ 48 ∷ 45 ∷ 108 ∷ 105 ∷ 98 ∷ 115 ∷ 115 ∷ 104 ∷ 95 ∷ 48 ∷ 46 ∷ 49
    ∷ 48 ∷ 46 ∷ 57 ∷ 48 ∷ 13 ∷ 10 ∷ []

unfoldable pub is_banner : Reader → Bool
unfolding peek
is_banner reader = elim (peek (length banner_bytes) reader) [
  | some received ↦ bytes_eq received banner_bytes
  | none ↦ false
]

unfoldable pub encode_raw : RawSshMessage → List ℕ → List ℕ
unfolding packet_codec
encode_raw (banner text) bytes = bytes ++ text
encode_raw (packet p) bytes = packet_codec.encode p bytes
encode_raw (on_wire slice) bytes = bytes ++ slice

unfoldable pub read_raw : Read RawSshMessage
unfolding is_banner packet_codec take_bytes
read_raw reader =
    if is_banner reader
    then (do taken ← take_bytes (length banner_bytes); pure (banner banner_bytes)) reader
    else (do p ← packet_codec.read; pure (packet p)) reader

unfoldable pub raw_codec : Codec RawSshMessage
unfolding encode_raw read_raw
raw_codec = record { encode = encode_raw; read = read_raw }

module _ (is_utf8 : List ℕ → Bool) where
  -- The padding is always seven zeros, and there is no MAC.
  unfoldable pub create_opaque : SshMessage → RawSshMessage
  unfolding get_encoding message_codec
  create_opaque m = packet (record {
    payload = get_encoding (message_codec is_utf8) m;
    random_padding = replicate 7 0;
    mac = [];
  })

  -- The message in the payload of a packet.
  unfoldable pub try_from : BinaryPacket → Option SshMessage
  unfolding message_codec read_bytes
  try_from p = read_bytes (message_codec is_utf8) p.payload
