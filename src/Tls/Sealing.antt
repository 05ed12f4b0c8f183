-- ===== src/Tls/Sealing.antt =====
-- tlspuffin/src/tls/fn_utils.rs: the function symbols that encrypt and decrypt messages of TLS 1.3. The
-- messages and the ciphers of the copy of rustls are the fields of a parameter.
use tlspuffin.Base.{ℕ, Bool, true, not, List, Option, Result, ok, bind}
use tlspuffin.Algebra.Shape.{FnError, crypto}
use tlspuffin.Tls.KeySchedule.{
  Rustls, ok_or, tls13_handshake_traffic_secret, tls13_application_traffic_secret, tls13_derive_psk,
}

-- A key is derived to an encrypter and a decrypter, which are given the number of the message. A plain
-- message has a payload, and `with_tls13` sets its version to that of TLS 1.3.
pub record Ciphers (r : Rustls) : Type 1 where
  pub Message : Type 0
  pub PlainMessage : Type 0
  pub OpaqueMessage : Type 0
  pub to_plain : Message → PlainMessage
  pub into_unencrypted_opaque : PlainMessage → OpaqueMessage
  pub message_from : PlainMessage → Option Message
  pub payload : PlainMessage → List ℕ
  pub with_tls13 : PlainMessage → PlainMessage
  pub encrypt : r.Tls13Suite → r.Prk → PlainMessage → ℕ → Option OpaqueMessage
  pub decrypt : r.Tls13Suite → r.Prk → OpaqueMessage → ℕ → Option PlainMessage

module _ (r : Rustls) (c : Ciphers r) where
  -- What the two symbols that encrypt do with a key, and the two that decrypt.
  abbrev pub encrypt_with :
      FnError → r.Suite → r.Prk → c.Message → ℕ → Result FnError c.OpaqueMessage
  encrypt_with failure suite key message sequence =
      bind (ok_or (r.tls13 suite) (crypto "No tls 1.3 suite"))
        λ tls13_suite. ok_or (c.encrypt tls13_suite key (c.to_plain message) sequence) failure

  abbrev pub decrypt_with : FnError → r.Suite → r.Prk → c.Message → ℕ → Result FnError c.Message
  decrypt_with failure suite key application_data sequence =
      bind (ok_or (r.tls13 suite) (crypto "No tls 1.3 suite")) λ tls13_suite.
        bind
          (ok_or
            (c.decrypt tls13_suite key (c.into_unencrypted_opaque (c.to_plain application_data))
              sequence)
            failure)
          λ plain.
            ok_or (c.message_from plain) (crypto "Failed to create Message from decrypted data")

  unfoldable pub fn_decrypt_handshake :
      c.Message
      → r.HandshakeHash
      → Option (List ℕ)
      → Option (List ℕ)
      → r.Group
      → Bool
      → ℕ
      → Result FnError c.Message
  unfolding tls13_handshake_traffic_secret
  fn_decrypt_handshake application_data server_hello_transcript server_key_share psk group client
        sequence =
      bind
        (tls13_handshake_traffic_secret r server_hello_transcript server_key_share psk (not client)
          group)
        λ secret.
          decrypt_with (crypto "Failed to decrypt it fn_decrypt_handshake") secret.0 secret.1
            application_data sequence

  unfoldable pub fn_encrypt_handshake :
      c.Message
      → r.HandshakeHash
      → Option (List ℕ)
      → Option (List ℕ)
      → r.Group
      → Bool
      → ℕ
      → Result FnError c.OpaqueMessage
  unfolding tls13_handshake_traffic_secret
  fn_encrypt_handshake some_message server_hello server_key_share psk group client sequence =
      bind (tls13_handshake_traffic_secret r server_hello server_key_share psk client group)
        λ secret.
          encrypt_with (crypto "Failed to encrypt it fn_encrypt_handshake") secret.0 secret.1
            some_message sequence

  unfoldable pub fn_decrypt_application :
      c.Message
      → r.HandshakeHash
      → r.HandshakeHash
      → Option (List ℕ)
      → Option (List ℕ)
      → r.Group
      → Bool
      → ℕ
      → Result FnError c.Message
  unfolding tls13_application_traffic_secret
  fn_decrypt_application application_data server_hello_transcript server_finished_transcript
        server_key_share psk group client sequence =
      bind
        (tls13_application_traffic_secret r server_hello_transcript server_finished_transcript
          server_key_share psk group (not client))
        λ secret.
          decrypt_with (crypto "Failed to decrypt it fn_decrypt_application") secret.0 secret.1
            application_data sequence

  unfoldable pub fn_encrypt_application :
      c.Message
      → r.HandshakeHash
      → r.HandshakeHash
      → Option (List ℕ)
      → Option (List ℕ)
      → r.Group
      → ℕ
      → Result FnError c.OpaqueMessage
  unfolding tls13_application_traffic_secret
  fn_encrypt_application some_message server_hello_transcript server_finished_transcript
        server_key_share psk group sequence =
      bind
        (tls13_application_traffic_secret r server_hello_transcript server_finished_transcript
          server_key_share psk group true)
        λ secret.
          encrypt_with (crypto "Failed to encrypt it fn_encrypt_application") secret.0 secret.1
            some_message sequence

  -- `fn_derive_psk`
  unfoldable pub fn_derive_psk :
      r.HandshakeHash
      → r.HandshakeHash
      → r.HandshakeHash
      → Option (List ℕ)
      → List ℕ
      → r.Group
      → Result FnError (List ℕ)
  unfolding tls13_derive_psk
  fn_derive_psk server_hello server_finished client_finished server_key_share new_ticket_nonce
        group =
      bind
        (tls13_derive_psk r server_hello server_finished client_finished server_key_share
          new_ticket_nonce group)
        λ psk. ok psk
