-- ===== src/Tls/KeySchedule.antt =====
-- tlspuffin/src/tls/key_exchange.rs and key_schedule.rs: the keys of the attacker in TLS 1.3. The types and
-- functions of the copy of rustls and of ring are the fields of a parameter.
use tlspuffin.Base.{
  ℕ, Bool, true, List, take, replicate, Option, none, some, Result, ok, err, bind, if◌then◌else◌,
}
use tlspuffin.Algebra.Shape.{FnError, unknown, crypto, other}

-- The random numbers of the private keys are always the same, so that a private key belongs to its group.
pub record Rustls : Type 1 where
  pub Group : Type 0
  pub KxGroup : Type 0
  pub PrivateKey : Type 0
  pub Suite : Type 0
  pub Tls13Suite : Type 0
  pub Algorithm : Type 0
  pub Pre : Type 0
  pub HandshakeStart : Type 0
  pub Handshake : Type 0
  pub Pending : Type 0
  pub Traffic : Type 0
  pub Prk : Type 0
  pub HandshakeHash : Type 0
  -- The key exchange.
  pub choose : Group → Option KxGroup
  pub find_group : Group → Option KxGroup
  pub generate : KxGroup → Option PrivateKey
  pub compute_public_key : PrivateKey → Option (List ℕ)
  pub complete : KxGroup → PrivateKey → List ℕ → List ℕ → Option (List ℕ)
  -- The suite TLS13_AES_128_GCM_SHA256, and the key schedule.
  pub suite : Suite
  pub tls13 : Suite → Option Tls13Suite
  pub hkdf_algorithm : Tls13Suite → Algorithm
  pub output_len : Algorithm → ℕ
  pub early_into_pre : Algorithm → List ℕ → Pre
  pub new_pre : Algorithm → Pre
  pub into_handshake : Pre → List ℕ → HandshakeStart
  pub get_current_hash_raw : HandshakeHash → List ℕ
  pub derive_handshake_secrets : HandshakeStart → List ℕ → List ℕ → Handshake × Prk × Prk
  pub into_traffic_with_client_finished_pending_raw :
      Handshake → List ℕ → List ℕ → Pending × Prk × Prk
  pub sign_client_finish_raw : Pending → List ℕ → Traffic × List ℕ × Prk
  pub sign_server_finish_raw : Handshake → List ℕ → List ℕ
  pub derive_ticket_psk_raw : Traffic → List ℕ → List ℕ → List ℕ

abbrev pub ok_or : {E A : Type 0} → Option A → E → Result E A
ok_or (some a) e = ok a
ok_or none e = err e

module _ (r : Rustls) where
  unfoldable pub deterministic_key_exchange :
      r.KxGroup → Result FnError (r.KxGroup × r.PrivateKey × List ℕ)
  deterministic_key_exchange skxg =
      bind (ok_or (r.generate skxg) (crypto "Failed to generate ephemeral key")) λ ours.
        bind (ok_or (r.compute_public_key ours) (crypto "Failed to compute public key"))
          λ pubkey. ok (skxg, ours, pubkey)

  unfoldable pub deterministic_key_share : r.Group → Result FnError (List ℕ)
  unfolding deterministic_key_exchange
  deterministic_key_share group = elim (r.find_group group) [
    | some supported_group ↦ bind (deterministic_key_exchange supported_group) λ kx. ok kx.2
    | none ↦ err (crypto "Unable to find named group")
  ]

  unfoldable pub tls13_key_exchange : List ℕ → r.Group → Result FnError (List ℕ)
  unfolding deterministic_key_exchange
  tls13_key_exchange server_key_share group =
      bind (ok_or (r.choose group) (unknown (other "Failed to choose group in key exchange")))
        λ skxg. bind (deterministic_key_exchange skxg) λ kx.
          ok_or (r.complete kx.0 kx.1 kx.2 server_key_share)
            (crypto "Failed to compute shared secret")

  -- The longest output of a digest has 64 bytes.
  unfoldable pub dhe_key_schedule :
      r.Suite → r.Group → Option (List ℕ) → Option (List ℕ) → Result FnError r.HandshakeStart
  unfolding tls13_key_exchange
  dhe_key_schedule suite group server_key_share psk =
      bind (ok_or (r.tls13 suite) (crypto "No tls 1.3 suite")) λ tls13_suite.
        let hkdf_algorithm = r.hkdf_algorithm tls13_suite in
        elim server_key_share [
          | some key_share ↦ elim psk [
            | some key ↦ bind (tls13_key_exchange key_share group) λ shared_secret.
                ok (r.into_handshake (r.early_into_pre hkdf_algorithm key) shared_secret)
            | none ↦
                bind (tls13_key_exchange key_share group)
                  λ shared_secret. ok (r.into_handshake (r.new_pre hkdf_algorithm) shared_secret)
          ]
          | none ↦ elim psk [
            | some key ↦ ok (
                r.into_handshake (r.early_into_pre hkdf_algorithm key)
                  (take (r.output_len hkdf_algorithm) (replicate 64 0)))
            | none ↦ err (unknown (other "Need at least a key share or a psk"))
          ]
        ]

  abbrev client_random : List ℕ
  client_random = replicate 32 1

  unfoldable pub tls13_handshake_traffic_secret :
      r.HandshakeHash
      → Option (List ℕ)
      → Option (List ℕ)
      → Bool
      → r.Group
      → Result FnError (r.Suite × r.Prk × r.Handshake)
  unfolding dhe_key_schedule
  tls13_handshake_traffic_secret server_hello server_key_share psk client group =
      bind (dhe_key_schedule r.suite group server_key_share psk) λ key_schedule.
        let (hs, client_secret, server_secret) =
          r.derive_handshake_secrets key_schedule (r.get_current_hash_raw server_hello)
            client_random in
        ok (r.suite, if client then client_secret else server_secret, hs)

  unfoldable pub tls13_application_traffic_secret :
      r.HandshakeHash
      → r.HandshakeHash
      → Option (List ℕ)
      → Option (List ℕ)
      → r.Group
      → Bool
      → Result FnError (r.Suite × r.Prk × r.Pending)
  unfolding tls13_handshake_traffic_secret
  tls13_application_traffic_secret server_hello server_finished server_key_share psk group client =
      bind (tls13_handshake_traffic_secret server_hello server_key_share psk client group) λ secret.
        let (suite, key, key_schedule) = secret in
        let (pending, client_secret, server_secret) =
          r.into_traffic_with_client_finished_pending_raw key_schedule
            (r.get_current_hash_raw server_finished) client_random in
        ok (suite, if client then client_secret else server_secret, pending)

  unfoldable pub tls13_derive_psk :
      r.HandshakeHash
      → r.HandshakeHash
      → r.HandshakeHash
      → Option (List ℕ)
      → List ℕ
      → r.Group
      → Result FnError (List ℕ)
  unfolding tls13_application_traffic_secret
  tls13_derive_psk server_hello server_finished client_finished server_key_share new_ticket_nonce
        group =
      bind
        (tls13_application_traffic_secret server_hello server_finished server_key_share none group
          true)
        λ secret.
          let (traffic, tag, client_secret) =
            r.sign_client_finish_raw secret.2 (r.get_current_hash_raw server_finished) in
          ok (
            r.derive_ticket_psk_raw traffic (r.get_current_hash_raw client_finished)
              new_ticket_nonce)

  -- tlspuffin/src/tls/fn_fields.rs
  unfoldable pub fn_verify_data :
      r.HandshakeHash
      → r.HandshakeHash
      → Option (List ℕ)
      → Option (List ℕ)
      → r.Group
      → Result FnError (List ℕ)
  unfolding dhe_key_schedule
  fn_verify_data server_finished server_hello server_key_share psk group =
      bind (dhe_key_schedule r.suite group server_key_share psk) λ key_schedule.
        let hello = r.get_current_hash_raw server_hello in
        let hs = (r.derive_handshake_secrets key_schedule hello client_random).0 in
        let pending = (r.into_traffic_with_client_finished_pending_raw hs hello client_random).0 in
        ok (r.sign_client_finish_raw pending (r.get_current_hash_raw server_finished)).1

  unfoldable pub fn_verify_data_server :
      r.HandshakeHash
      → r.HandshakeHash
      → Option (List ℕ)
      → r.Group
      → Option (List ℕ)
      → Result FnError (List ℕ)
  unfolding dhe_key_schedule
  fn_verify_data_server server_finished server_hello server_key_share group psk =
      bind (dhe_key_schedule r.suite group server_key_share psk) λ key_schedule.
        let hello = r.get_current_hash_raw server_hello in
        let hs = (r.derive_handshake_secrets key_schedule hello client_random).0 in
        ok (r.sign_server_finish_raw hs (r.get_current_hash_raw server_finished))
