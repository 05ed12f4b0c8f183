-- ===== src/Ssh/Messages.antt =====
-- sshpuffin/src/ssh/message.rs: the messages and their codec.
use tlspuffin.Base.{
  ℕ, ◌%◌, ◌^◌, Bool, true, false, not, List, ◌++◌, length, none, ◌==◌, if◌then◌else◌,
}
use tlspuffin.Codec.Reader.{Read, ◌>>=◌, pure, or_none, take_bytes}
use tlspuffin.Codec.Numbers.{Codec, u8_codec, u32_codec}
use tlspuffin.Ssh.NameLists.{NameList, name_list_codec}

-- The cookie is an array of 16 bytes.
pub record KexInitMessage : Type 0 where
  pub cookie : List ℕ
  pub kex_algorithms : NameList
  pub server_host_key_algorithms : NameList
  pub encryption_algorithms_server_to_client : NameList
  pub encryption_algorithms_client_to_server : NameList
  pub mac_algorithms_client_to_server : NameList
  pub mac_algorithms_server_to_client : NameList
  pub compression_algorithms_client_to_server : NameList
  pub compression_algorithms_server_to_client : NameList
  pub languages_client_to_server : NameList
  pub languages_server_to_client : NameList
  pub first_kex_packet_follows : Bool

pub record KexEcdhInitMessage : Type 0 where
  pub ephemeral_public_key : List ℕ

pub record KexEcdhReplyMessage : Type 0 where
  pub public_host_key : List ℕ
  pub ephemeral_public_key : List ℕ
  pub signature : List ℕ

pub data SshMessage : Type 0 where
  kex_init : KexInitMessage → SshMessage
  kex_ecdh_init : KexEcdhInitMessage → SshMessage
  kex_ecdh_reply : KexEcdhReplyMessage → SshMessage
  new_keys : SshMessage

-- Bytes with their length, a u32, in front: how the keys and the signature are written and read.
unfoldable pub slice_codec : Codec (List ℕ)
unfolding u32_codec take_bytes
slice_codec = record {
  encode = λ slice bytes. u32_codec.encode (length slice % 2 ^ 32) bytes ++ slice;
  read = u32_codec.read >>= take_bytes;
}

unfoldable pub kex_ecdh_init_codec : Codec KexEcdhInitMessage
unfolding slice_codec
kex_ecdh_init_codec = record {
  encode = λ m bytes. slice_codec.encode m.ephemeral_public_key bytes;
  read = (do
    ephemeral_public_key ← slice_codec.read
    pure (record { ephemeral_public_key = ephemeral_public_key }));
}

unfoldable pub kex_ecdh_reply_codec : Codec KexEcdhReplyMessage
unfolding slice_codec
kex_ecdh_reply_codec = record {
  encode = λ m bytes.
      slice_codec.encode m.signature
        (slice_codec.encode m.ephemeral_public_key (slice_codec.encode m.public_host_key bytes));
  read = (do
    public_host_key ← slice_codec.read
    ephemeral_public_key ← slice_codec.read
    signature ← slice_codec.read
    pure (record {
      public_host_key = public_host_key;
      ephemeral_public_key = ephemeral_public_key;
      signature = signature;
    }));
}

-- `as u8` of a Boolean.
abbrev pub bool_as_u8 : Bool → ℕ
bool_as_u8 true = 1
bool_as_u8 false = 0

module _ (is_utf8 : List ℕ → Bool) where
  -- The number that is read last is reserved.
  unfoldable pub kex_init_codec : Codec KexInitMessage
  unfolding name_list_codec u8_codec u32_codec take_bytes
  kex_init_codec = record {
    encode = λ m bytes.
        let lists = name_list_codec is_utf8 in
        let b0 = bytes ++ m.cookie in
        let b1 = lists.encode m.kex_algorithms b0 in
        let b2 = lists.encode m.server_host_key_algorithms b1 in
        let b3 = lists.encode m.encryption_algorithms_server_to_client b2 in
        let b4 = lists.encode m.encryption_algorithms_client_to_server b3 in
        let b5 = lists.encode m.mac_algorithms_client_to_server b4 in
        let b6 = lists.encode m.mac_algorithms_server_to_client b5 in
        let b7 = lists.encode m.compression_algorithms_client_to_server b6 in
        let b8 = lists.encode m.compression_algorithms_server_to_client b7 in
        let b9 = lists.encode m.languages_client_to_server b8 in
        let b10 = lists.encode m.languages_server_to_client b9 in
        let b11 = u8_codec.encode (bool_as_u8 m.first_kex_packet_follows) b10 in
        u32_codec.encode 0 b11;
    read = (do
      cookie ← take_bytes 16
      kex ← (name_list_codec is_utf8).read
      host_key ← (name_list_codec is_utf8).read
      encryption_to_client ← (name_list_codec is_utf8).read
      encryption_to_server ← (name_list_codec is_utf8).read
      mac_to_server ← (name_list_codec is_utf8).read
      mac_to_client ← (name_list_codec is_utf8).read
      compression_to_server ← (name_list_codec is_utf8).read
      compression_to_client ← (name_list_codec is_utf8).read
      languages_to_server ← (name_list_codec is_utf8).read
      languages_to_client ← (name_list_codec is_utf8).read
      follows ← u8_codec.read
      reserved ← u32_codec.read
      pure (record {
        cookie = cookie;
        kex_algorithms = kex;
        server_host_key_algorithms = host_key;
        encryption_algorithms_server_to_client = encryption_to_client;
        encryption_algorithms_client_to_server = encryption_to_server;
        mac_algorithms_client_to_server = mac_to_server;
        mac_algorithms_server_to_client = mac_to_client;
        compression_algorithms_client_to_server = compression_to_server;
        compression_algorithms_server_to_client = compression_to_client;
        languages_client_to_server = languages_to_server;
        languages_server_to_client = languages_to_client;
        first_kex_packet_follows = not (follows == 0);
      }));
  }

  unfoldable pub encode_message : SshMessage → List ℕ → List ℕ
  unfolding kex_init_codec kex_ecdh_init_codec kex_ecdh_reply_codec u8_codec
  encode_message (kex_init m) bytes = kex_init_codec.encode m (u8_codec.encode 20 bytes)
  encode_message new_keys bytes = u8_codec.encode 21 bytes
  encode_message (kex_ecdh_init m) bytes = kex_ecdh_init_codec.encode m (u8_codec.encode 30 bytes)
  encode_message (kex_ecdh_reply m) bytes = kex_ecdh_reply_codec.encode m (u8_codec.encode 31 bytes)

  -- The message of a type that was read before.
  unfoldable pub read_message_of : ℕ → Read SshMessage
  unfolding kex_init_codec kex_ecdh_init_codec kex_ecdh_reply_codec
  read_message_of typ =
      if typ == 20
      then (do m ← kex_init_codec.read; pure (kex_init m))
      else if typ == 21
      then pure new_keys
      else if typ == 30
      then (do m ← kex_ecdh_init_codec.read; pure (kex_ecdh_init m))
      else if typ == 31
      then (do m ← kex_ecdh_reply_codec.read; pure (kex_ecdh_reply m))
      else or_none none

  unfoldable pub message_codec : Codec SshMessage
  unfolding encode_message read_message_of u8_codec
  message_codec = record { encode = encode_message; read = u8_codec.read >>= read_message_of }
