-- ===== src/Tls/SealingLaws.antt =====
-- tlspuffin/src/tls/fn_utils.rs: what is encrypted for one side is decrypted by the other.
use tlspuffin.Base.{
  ◌≤◌, length, ℕ, ◌≡◌, refl, ap, ◌∙◌, Bool, true, false, not, List, Option, none, some, Result, ok,
  bind, bind-eq-ok,
}
use tlspuffin.Algebra.Shape.{FnError, crypto}
use tlspuffin.Tls.KeySchedule.{
  Rustls, ok_or, tls13_handshake_traffic_secret, tls13_application_traffic_secret,
}
use tlspuffin.Tls.Sealing.{
  Ciphers, encrypt_with, decrypt_with, fn_encrypt_handshake, fn_decrypt_handshake,
  fn_encrypt_application, fn_decrypt_application,
}

-- The longest payload of a record of TLS.
abbrev pub max_fragment_len : ℕ
max_fragment_len = 16384

-- What the encrypter of a key made of a message whose payload fits in a record, the decrypter of the same key
-- and number takes back, with the version of TLS 1.3, whatever version the message had.
pub record IsCiphers {r : Rustls} (c : Ciphers r) : Type 0 where
  pub decrypts :
      (suite : r.Tls13Suite) (key : r.Prk) (m : c.Message) (n : ℕ) (o : c.OpaqueMessage)
      → length (c.payload (c.to_plain m)) ≤ max_fragment_len
      → c.encrypt suite key (c.to_plain m) n ≡ some o
      → c.decrypt suite key o n ≡ some (c.with_tls13 (c.to_plain m))

ok_or-eq-ok : {E A : Type 0} (o : Option A) (e : E) (a : A) → ok_or o e ≡ ok a → o ≡ some a
ok_or-eq-ok (some x) e a h = cc
ok_or-eq-ok none e a h = cc

not-not : (b : Bool) → not (not b) ≡ b
not-not true = refl
not-not false = refl

module _ {r : Rustls} (c : Ciphers r) (laws : IsCiphers c) where
  -- The message that is read from a plain message of TLS 1.3, or the error that there is none.
  abbrev pub read_back : c.Message → Result FnError c.Message
  read_back m =
      ok_or (c.message_from (c.with_tls13 (c.to_plain m)))
        (crypto "Failed to create Message from decrypted data")

  decrypt_with-encrypt_with :
      (failure failure' : FnError) (suite : r.Suite) (key : r.Prk) (m a : c.Message) (n : ℕ)
      (o : c.OpaqueMessage)
      → length (c.payload (c.to_plain m)) ≤ max_fragment_len
      → encrypt_with r c failure suite key m n ≡ ok o
      → c.into_unencrypted_opaque (c.to_plain a) ≡ o
      → decrypt_with r c failure' suite key a n ≡ read_back m
  decrypt_with-encrypt_with failure failure' suite key m a n o fits e same =
      let (tls13_suite, found, encrypted) =
        bind-eq-ok (ok_or (r.tls13 suite) (crypto "No tls 1.3 suite"))
          (λ tls13_suite. ok_or (c.encrypt tls13_suite key (c.to_plain m) n) failure) e in
      let some_o = ok_or-eq-ok (c.encrypt tls13_suite key (c.to_plain m) n) failure o encrypted in
      let back = laws.decrypts tls13_suite key m n o fits some_o in
      let undecodable = crypto "Failed to create Message from decrypted data" in
      ap
        (λ (s : Result FnError r.Tls13Suite). bind s λ suite'.
          bind (ok_or (c.decrypt suite' key (c.into_unencrypted_opaque (c.to_plain a)) n) failure')
            λ plain. ok_or (c.message_from plain) undecodable)
        found
      ∙ ap
          (λ x.
            bind (ok_or (c.decrypt tls13_suite key x n) failure')
              λ plain. ok_or (c.message_from plain) undecodable)
          same
      ∙ ap (λ x. bind (ok_or x failure') λ plain. ok_or (c.message_from plain) undecodable) back

  -- Where the decrypter of a key takes back, with the version set to TLS 1.3, what the encrypter of
  -- the same key and number makes of a message whose plain payload has 16384 bytes at most: if
  -- `fn_encrypt_handshake` for one side returns an opaque message for a message with such a
  -- payload, and some application data, made plain and then opaque without encryption, is that
  -- opaque message, then `fn_decrypt_handshake` of the application data with the flag of the other
  -- side and the same transcript, shares, group and number returns what is read from the plain form
  -- of the first message with the version set to TLS 1.3, or the error that no message is read.
  pub fn_decrypt_handshake-fn_encrypt_handshake :
      (m a : c.Message) (server_hello : r.HandshakeHash) (server_key_share psk : Option (List ℕ))
      (group : r.Group) (client : Bool) (sequence : ℕ) (o : c.OpaqueMessage)
      → length (c.payload (c.to_plain m)) ≤ max_fragment_len
      → fn_encrypt_handshake r c m server_hello server_key_share psk group client sequence ≡ ok o
      → c.into_unencrypted_opaque (c.to_plain a) ≡ o
      → fn_decrypt_handshake r c a server_hello server_key_share psk group (not client) sequence
        ≡ read_back m
  unfolding fn_encrypt_handshake fn_decrypt_handshake
  fn_decrypt_handshake-fn_encrypt_handshake m a server_hello server_key_share psk group client
        sequence o fits e same =
      let failure = crypto "Failed to decrypt it fn_decrypt_handshake" in
      let (secret, made, sealed) =
        bind-eq-ok (tls13_handshake_traffic_secret r server_hello server_key_share psk client group)
          (λ s.
            encrypt_with r c (crypto "Failed to encrypt it fn_encrypt_handshake") s.0 s.1 m
              sequence)
          e in
      ap
        (λ side.
          bind (tls13_handshake_traffic_secret r server_hello server_key_share psk side group)
            λ s. decrypt_with r c failure s.0 s.1 a sequence)
        (not-not client)
      ∙ ap
          (λ (x : Result FnError (r.Suite × r.Prk × r.Handshake)).
            bind x λ s. decrypt_with r c failure s.0 s.1 a sequence)
          made
      ∙ decrypt_with-encrypt_with (crypto "Failed to encrypt it fn_encrypt_handshake") failure
          secret.0 secret.1 m a sequence o fits sealed same

  -- Where the decrypter of a key takes back, with the version set to TLS 1.3, what the encrypter of
  -- the same key and number makes of a message whose plain payload has 16384 bytes at most: if
  -- `fn_encrypt_application`, which encrypts as the client, returns an opaque message for a message
  -- with such a payload, and some application data, made plain and then opaque without encryption,
  -- is that opaque message, then `fn_decrypt_application` of the application data with the flag of
  -- the server and the same transcripts, shares, group and number returns what is read from the
  -- plain form of the first message with the version set to TLS 1.3, or the error that no message
  -- is read.
  pub fn_decrypt_application-fn_encrypt_application :
      (m a : c.Message) (server_hello server_finished : r.HandshakeHash)
      (server_key_share psk : Option (List ℕ)) (group : r.Group) (sequence : ℕ)
      (o : c.OpaqueMessage)
      → length (c.payload (c.to_plain m)) ≤ max_fragment_len
      → fn_encrypt_application r c m server_hello server_finished server_key_share psk group
          sequence
        ≡ ok o
      → c.into_unencrypted_opaque (c.to_plain a) ≡ o
      → fn_decrypt_application r c a server_hello server_finished server_key_share psk group false
          sequence
        ≡ read_back m
  unfolding fn_encrypt_application fn_decrypt_application
  fn_decrypt_application-fn_encrypt_application m a server_hello server_finished server_key_share
        psk group sequence o fits e same =
      let failure = crypto "Failed to decrypt it fn_decrypt_application" in
      let (secret, made, sealed) =
        bind-eq-ok
          (tls13_application_traffic_secret r server_hello server_finished server_key_share psk
            group true)
          (λ s.
            encrypt_with r c (crypto "Failed to encrypt it fn_encrypt_application") s.0 s.1 m
              sequence)
          e in
      ap
        (λ (x : Result FnError (r.Suite × r.Prk × r.Pending)).
          bind x λ s. decrypt_with r c failure s.0 s.1 a sequence)
        made
      ∙ decrypt_with-encrypt_with (crypto "Failed to encrypt it fn_encrypt_application") failure
          secret.0 secret.1 m a sequence o fits sealed same
