-- ===== src/Ssh/MessageLaws.antt =====
-- sshpuffin/src/ssh/message.rs: reading messages from their encoding.
use tlspuffin.Base.{
  ℕ, ◌%◌, ◌^◌, ◌<◌, ◌≡◌, refl, sym, ap, ◌∙◌, subst, Bool, true, false, not, ◌==◌, List, ◌++◌,
  length, some, arith, append_assoc,
}
use tlspuffin.Codec.Reader.{take_bytes}
use tlspuffin.Codec.Numbers.{get_encoding, u8_codec, u32_codec, to_be_bytes, bound}
use tlspuffin.Codec.Reads.{Reads, Reads->>=, Reads-last, take_bytes-Reads, read_number-Reads}
use tlspuffin.Codec.Laws.{
  IsLawful, IsNumber, of_encoding-IsLawful, encode_then, u8_codec-IsLawful, u32_codec-IsLawful,
}
use tlspuffin.Ssh.NameLists.{NameList, IsNameList, name_list_codec, name_list_codec-IsLawful}
use tlspuffin.Ssh.Messages.{
  KexInitMessage, KexEcdhReplyMessage, SshMessage, kex_init, kex_ecdh_init, kex_ecdh_reply,
  new_keys, slice_codec, kex_ecdh_init_codec, kex_ecdh_reply_codec, bool_as_u8, kex_init_codec,
  message_codec,
}

-- Bytes whose number fits in a u32.
abbrev pub IsSlice : List ℕ → Type 0
IsSlice slice = length slice < bound 4

slice_codec-IsLawful : IsLawful slice_codec IsSlice
unfolding slice_codec u32_codec
slice_codec-IsLawful =
    of_encoding-IsLawful (λ slice. to_be_bytes 4 (length slice % 2 ^ 32) ++ slice)
      (λ slice bytes. append_assoc bytes (to_be_bytes 4 (length slice % 2 ^ 32)) slice)
      λ slice short.
        let whole : length slice % 2 ^ 32 ≡ length slice = omega (arith, short) in
        subst (λ n. Reads slice_codec.read slice (to_be_bytes 4 n ++ slice)) (sym whole)
          (Reads->>= _ (read_number-Reads 4 (length slice) short) (take_bytes-Reads slice))

pub record IsReply (m : KexEcdhReplyMessage) : Type 0 where
  pub public_host_key : IsSlice m.public_host_key
  pub ephemeral_public_key : IsSlice m.ephemeral_public_key
  pub signature : IsSlice m.signature

kex_ecdh_init_codec-IsLawful : IsLawful kex_ecdh_init_codec (λ m. IsSlice m.ephemeral_public_key)
unfolding kex_ecdh_init_codec
kex_ecdh_init_codec-IsLawful =
    of_encoding-IsLawful (λ m. get_encoding slice_codec m.ephemeral_public_key)
      (λ m bytes. slice_codec-IsLawful.encode-append m.ephemeral_public_key bytes)
      λ m h. Reads-last _ (slice_codec-IsLawful.encode-Reads m.ephemeral_public_key h) (λ r. refl)

kex_ecdh_reply_codec-IsLawful : IsLawful kex_ecdh_reply_codec IsReply
unfolding kex_ecdh_reply_codec
kex_ecdh_reply_codec-IsLawful =
    let law = slice_codec-IsLawful in
    of_encoding-IsLawful
      (λ m.
        get_encoding slice_codec m.public_host_key
        ++ (get_encoding slice_codec m.ephemeral_public_key
            ++ get_encoding slice_codec m.signature))
      (λ m bytes.
        encode_then law m.public_host_key _ _
          (encode_then law m.ephemeral_public_key _ _ (law.encode-append m.signature _)))
      λ m h. Reads->>= _ (law.encode-Reads m.public_host_key h.public_host_key) (
        Reads->>= _ (law.encode-Reads m.ephemeral_public_key h.ephemeral_public_key)
          (Reads-last _ (law.encode-Reads m.signature h.signature) (λ r. refl)))

-- The values that a `KexInit` message keeps through its encoding.
pub record IsKexInit (is_utf8 : List ℕ → Bool) (m : KexInitMessage) : Type 0 where
  pub cookie : length m.cookie ≡ 16
  pub kex : IsNameList is_utf8 m.kex_algorithms
  pub host_key : IsNameList is_utf8 m.server_host_key_algorithms
  pub encryption_to_client : IsNameList is_utf8 m.encryption_algorithms_server_to_client
  pub encryption_to_server : IsNameList is_utf8 m.encryption_algorithms_client_to_server
  pub mac_to_server : IsNameList is_utf8 m.mac_algorithms_client_to_server
  pub mac_to_client : IsNameList is_utf8 m.mac_algorithms_server_to_client
  pub compression_to_server : IsNameList is_utf8 m.compression_algorithms_client_to_server
  pub compression_to_client : IsNameList is_utf8 m.compression_algorithms_server_to_client
  pub languages_to_server : IsNameList is_utf8 m.languages_client_to_server
  pub languages_to_client : IsNameList is_utf8 m.languages_server_to_client

abbrev pub IsMessage : (List ℕ → Bool) → SshMessage → Type 0
IsMessage is_utf8 (kex_init m) = IsKexInit is_utf8 m
IsMessage is_utf8 (kex_ecdh_init m) = IsSlice m.ephemeral_public_key
IsMessage is_utf8 (kex_ecdh_reply m) = IsReply m
IsMessage is_utf8 new_keys = Unit

bool_as_u8-small : (b : Bool) → IsNumber 1 (bool_as_u8 b)
bool_as_u8-small true = omega arith
bool_as_u8-small false = omega arith

module _ (is_utf8 : List ℕ → Bool) where
  abbrev names_encoding : NameList → List ℕ
  names_encoding names = get_encoding (name_list_codec is_utf8) names

  abbrev kex_init_encoding : KexInitMessage → List ℕ
  kex_init_encoding m =
      m.cookie
      ++ (names_encoding m.kex_algorithms
          ++ (names_encoding m.server_host_key_algorithms
              ++ (names_encoding m.encryption_algorithms_server_to_client
                  ++ (names_encoding m.encryption_algorithms_client_to_server
                      ++ (names_encoding m.mac_algorithms_client_to_server
                          ++ (names_encoding m.mac_algorithms_server_to_client
                              ++ (names_encoding m.compression_algorithms_client_to_server
                                  ++ (names_encoding m.compression_algorithms_server_to_client
                                      ++ (names_encoding m.languages_client_to_server
                                          ++ (names_encoding m.languages_server_to_client
                                              ++ (get_encoding u8_codec
                                                    (bool_as_u8 m.first_kex_packet_follows)
                                                  ++ get_encoding u32_codec 0)))))))))))

  kex_init_codec-appends :
      (m : KexInitMessage) (bytes : List ℕ)
      → (kex_init_codec is_utf8).encode m bytes ≡ bytes ++ kex_init_encoding m
  unfolding kex_init_codec
  kex_init_codec-appends m bytes =
      let law = name_list_codec-IsLawful is_utf8 in
      encode_then law m.kex_algorithms (bytes ++ m.cookie) _ (
        encode_then law m.server_host_key_algorithms _ _ (
          encode_then law m.encryption_algorithms_server_to_client _ _ (
            encode_then law m.encryption_algorithms_client_to_server _ _ (
              encode_then law m.mac_algorithms_client_to_server _ _ (
                encode_then law m.mac_algorithms_server_to_client _ _ (
                  encode_then law m.compression_algorithms_client_to_server _ _ (
                    encode_then law m.compression_algorithms_server_to_client _ _ (
                      encode_then law m.languages_client_to_server _ _ (
                        encode_then law m.languages_server_to_client _ _ (
                          encode_then u8_codec-IsLawful (bool_as_u8 m.first_kex_packet_follows) _ _
                            (u32_codec-IsLawful.encode-append 0 _)))))))))))
      ∙ append_assoc bytes m.cookie _

  kex_init_codec-Reads :
      (m : KexInitMessage)
      → IsKexInit is_utf8 m
      → Reads (kex_init_codec is_utf8).read m (kex_init_encoding m)
  unfolding kex_init_codec
  kex_init_codec-Reads m h =
      let law = (name_list_codec-IsLawful is_utf8).encode-Reads in
      let flag = m.first_kex_packet_follows in
      Reads->>= _
        (subst (λ n. Reads (take_bytes n) m.cookie m.cookie) h.cookie (take_bytes-Reads m.cookie))
        (Reads->>= _ (law m.kex_algorithms h.kex) (
          Reads->>= _ (law m.server_host_key_algorithms h.host_key) (
            Reads->>= _ (law m.encryption_algorithms_server_to_client h.encryption_to_client) (
              Reads->>= _ (law m.encryption_algorithms_client_to_server h.encryption_to_server) (
                Reads->>= _ (law m.mac_algorithms_client_to_server h.mac_to_server) (
                  Reads->>= _ (law m.mac_algorithms_server_to_client h.mac_to_client) (
                    Reads->>= _
                      (law m.compression_algorithms_client_to_server h.compression_to_server)
                      (Reads->>= _
                        (law m.compression_algorithms_server_to_client h.compression_to_client)
                        (Reads->>= _ (law m.languages_client_to_server h.languages_to_server) (
                          Reads->>= _ (law m.languages_server_to_client h.languages_to_client) (
                            Reads->>= _
                              (u8_codec-IsLawful.encode-Reads (bool_as_u8 flag)
                                (bool_as_u8-small flag))
                              (Reads-last _ (u32_codec-IsLawful.encode-Reads 0 (omega arith)) (λ r.
                                ap (λ b. (some (record m { first_kex_packet_follows = b }), r))
                                  (flag_back flag))))))))))))))
    where
      flag_back : (b : Bool) → not (bool_as_u8 b == 0) ≡ b
      flag_back true = refl
      flag_back false = refl

  kex_init_codec-IsLawful : IsLawful (kex_init_codec is_utf8) (IsKexInit is_utf8)
  kex_init_codec-IsLawful =
      of_encoding-IsLawful kex_init_encoding kex_init_codec-appends kex_init_codec-Reads

  abbrev message_encoding : SshMessage → List ℕ
  message_encoding (kex_init m) =
      get_encoding u8_codec 20 ++ get_encoding (kex_init_codec is_utf8) m
  message_encoding (kex_ecdh_init m) =
      get_encoding u8_codec 30 ++ get_encoding kex_ecdh_init_codec m
  message_encoding (kex_ecdh_reply m) =
      get_encoding u8_codec 31 ++ get_encoding kex_ecdh_reply_codec m
  message_encoding new_keys = get_encoding u8_codec 21

  message_codec-appends :
      (m : SshMessage) (bytes : List ℕ)
      → (message_codec is_utf8).encode m bytes ≡ bytes ++ message_encoding m
  unfolding message_codec
  message_codec-appends (kex_init m) bytes =
      encode_then u8_codec-IsLawful 20 bytes _ (kex_init_codec-IsLawful.encode-append m _)
  message_codec-appends (kex_ecdh_init m) bytes =
      encode_then u8_codec-IsLawful 30 bytes _ (kex_ecdh_init_codec-IsLawful.encode-append m _)
  message_codec-appends (kex_ecdh_reply m) bytes =
      encode_then u8_codec-IsLawful 31 bytes _ (kex_ecdh_reply_codec-IsLawful.encode-append m _)
  message_codec-appends new_keys bytes = u8_codec-IsLawful.encode-append 21 bytes

  message_codec-Reads :
      (m : SshMessage)
      → IsMessage is_utf8 m
      → Reads (message_codec is_utf8).read m (message_encoding m)
  unfolding message_codec
  message_codec-Reads (kex_init m) h =
      Reads->>= _ (u8_codec-IsLawful.encode-Reads 20 (omega arith))
        (Reads-last _ (kex_init_codec-IsLawful.encode-Reads m h) (λ r. refl))
  message_codec-Reads (kex_ecdh_init m) h =
      Reads->>= _ (u8_codec-IsLawful.encode-Reads 30 (omega arith))
        (Reads-last _ (kex_ecdh_init_codec-IsLawful.encode-Reads m h) (λ r. refl))
  message_codec-Reads (kex_ecdh_reply m) h =
      Reads->>= _ (u8_codec-IsLawful.encode-Reads 31 (omega arith))
        (Reads-last _ (kex_ecdh_reply_codec-IsLawful.encode-Reads m h) (λ r. refl))
  message_codec-Reads new_keys h =
      Reads-last _ (u8_codec-IsLawful.encode-Reads 21 (omega arith)) (λ r. refl)

  -- The codec of SSH messages is lawful: the encoding is appended to what is there, and reading
  -- takes exactly the encoding of a valid message and gives it back.
  pub message_codec-IsLawful : IsLawful (message_codec is_utf8) (IsMessage is_utf8)
  message_codec-IsLawful =
      of_encoding-IsLawful message_encoding message_codec-appends message_codec-Reads
