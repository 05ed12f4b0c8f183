-- ===== src/Tls/PolicyLaws.antt =====
-- tlspuffin/src/tls/violation.rs: when two handshakes pass the policy.
use Prim.Native.String.{String}
use tlspuffin.Base.{
  bytes_eq, bytes_eq_iff, ℕ, ◌≡◌, ◌≢◌, refl, sym, ap, ◌∙◌, ◌↔◌, ◌⊎◌, inl, inr, Bool, true, false,
  not, ◌&&◌, ◌||◌, List, [], ◌∷◌, Option, none, some, ◌==◌, ==_iff, if◌then◌else◌, arith,
  Bool-cases, Option-cases, find, any,
}
use tlspuffin.Agent.{AgentType, TlsVersion, tls_version_eq}
use tlspuffin.Tls.Claims.{Finished, TlsClaim}
use tlspuffin.Tls.Policy.{
  FinishedClaim, received_all, find_two_finished_messages, get_client_server, best_cipher, is_empty,
  check_cipher, check_version, check_pair, check_violation, peer_of,
}
use tlspuffin.Tls.Agreement.{SessionAgrees, CipherAgrees, IsAuthenticated, Agrees}

module _ {P : Type 0} where
  not_iff : (b : Bool) → ((b ≡ true) ↔ P) → ((not b ≡ false) ↔ P)
  not_iff true p = ((λ e. p.0 refl), λ h. refl)
  not_iff false p = ((λ e. absurd (cc)), λ h. absurd (cc (p.1 h)))

module _ {P Q : Type 0} where
  -- A check that passes when its condition does not hold and the rest passes.
  check_iff :
      (b : Bool) (x : String) (rest : Option String)
      → ((b ≡ false) ↔ P)
      → ((rest ≡ none) ↔ Q)
      → ((if b then some x else rest) ≡ none) ↔ (P × Q)
  check_iff true x rest p q = ((λ e. absurd (cc)), λ (h, k). absurd (cc (p.1 h)))
  check_iff false x rest p q = ((λ e. (p.0 refl, q.0 e)), λ (h, k). q.1 k)

  both_iff : (a b : Bool) → ((a ≡ false) ↔ P) → ((b ≡ false) ↔ Q) → ((a || b ≡ false) ↔ (P × Q))
  both_iff true b p q = ((λ e. absurd (cc)), λ (h, k). absurd (cc (p.1 h)))
  both_iff false b p q = ((λ e. (p.0 refl, q.0 e)), λ (h, k). q.1 k)

  either_iff : (a b : Bool) → ((a ≡ false) ↔ P) → ((b ≡ false) ↔ Q) → ((a && b ≡ false) ↔ (P ⊎ Q))
  either_iff true b p q =
      ((λ e. inr (q.0 e)), λ h. elim h [ inl x ↦ absurd (cc (p.1 x)) | inr y ↦ q.1 y ])
  either_iff false b p q = ((λ e. inl (p.0 refl)), λ h. refl)

tls_version_eq_iff : (a b : TlsVersion) → (tls_version_eq a b ≡ true) ↔ (a ≡ b)
unfolding tls_version_eq
tls_version_eq_iff TlsVersion.v1_3 TlsVersion.v1_3 = ((λ e. refl), λ e. refl)
tls_version_eq_iff TlsVersion.v1_2 TlsVersion.v1_2 = ((λ e. refl), λ e. refl)
tls_version_eq_iff TlsVersion.v1_3 TlsVersion.v1_2 = ((λ e. absurd (cc)), λ e. absurd (cc))
tls_version_eq_iff TlsVersion.v1_2 TlsVersion.v1_3 = ((λ e. absurd (cc)), λ e. absurd (cc))

is_empty_iff : (xs : List ℕ) → (not (is_empty xs) ≡ false) ↔ (xs ≡ [])
is_empty_iff [] = ((λ e. refl), λ e. refl)
is_empty_iff (x ∷ xs) = ((λ e. absurd (cc)), λ e. absurd (cc))

IsAuthenticated-iff :
    (f : Finished) (cert : List ℕ)
    → (f.authenticate_peer && not (bytes_eq f.peer_certificate cert) ≡ false)
      ↔ IsAuthenticated f cert
IsAuthenticated-iff f cert =
    either_iff f.authenticate_peer (not (bytes_eq f.peer_certificate cert)) ((λ e. e), λ e. e)
      (not_iff (bytes_eq f.peer_certificate cert) (bytes_eq_iff f.peer_certificate cert))

nothing_iff : (◌≡◌ {A = Option String} none none) ↔ Unit {0}
nothing_iff = ((λ e. tt), λ h. refl)

no_best :
    (cs ss : List ℕ) → not (is_empty cs) && not (is_empty ss) ≡ false → best_cipher cs ss ≡ none
unfolding best_cipher
no_best cs [] h = refl
no_best [] (s ∷ ss) h = none_found ss
  where
    none_found : (ss : List ℕ) → find (λ s. any (λ c. c == s) []) ss ≡ none
    none_found [] = refl
    none_found (s ∷ ss) = none_found ss
no_best (c ∷ cs) (s ∷ ss) h = absurd (cc)

-- Both ciphers are the best one.
best_iff :
    (best s c : ℕ)
    → (◌≡◌ {A = Option String}
        (if not (best == s)
          then some "Not the best cipher choosen"
          else if not (best == c)
          then some "Not the best cipher choosen"
          else none)
        none)
      ↔ ((best ≡ s) × ((best ≡ c) × Unit {0}))
best_iff best s c =
    check_iff (not (best == s)) _ _ (not_iff (best == s) (==_iff best s))
      (check_iff (not (best == c)) _ none (not_iff (best == c) (==_iff best c)) nothing_iff)

check_cipher_iff :
    (client server : Finished)
    → (check_cipher client server ≡ none) ↔ CipherAgrees TlsVersion.v1_3 client server
unfolding check_cipher
check_cipher_iff client server =
    elim (Bool-cases
      (not (is_empty client.available_ciphers) && not (is_empty server.available_ciphers))) [
        | inr e ↦
            let none_best = no_best client.available_ciphers server.available_ciphers e in
            rw (e, check_cipher) ((λ h. inl none_best), λ h. refl)
        | inl e ↦
            elim (Option-cases (best_cipher client.available_ciphers server.available_ciphers)) [
              | inl none_best ↦ rw (e, none_best, check_cipher) ((λ h. inl refl), λ h. refl)
              | inr (best, found) ↦
                  let both = best_iff best server.chosen_cipher client.chosen_cipher in
                  rw (e, found, check_cipher)
                    (
                      (λ h. let (x, (y, z)) = both.0 h in inr (ap some x, sym y ∙ x)),
                      λ h. elim h [
                        | inl none_best ↦ absurd (cc)
                        | inr (x, y) ↦
                            let same : best ≡ server.chosen_cipher = cc in
                            both.1 (same, (same ∙ sym y, tt))
                      ],
                    )
            ]
      ]

check_version_iff :
    (v : TlsVersion) (client server : Finished)
    → (check_version v client server ≡ none)
      ↔ (SessionAgrees v client server × CipherAgrees v client server)
unfolding check_version
check_version_iff TlsVersion.v1_2 client server =
    check_iff
      (not (is_empty server.session_id) && not (bytes_eq client.session_id server.session_id)) _
      none
      (either_iff (not (is_empty server.session_id))
        (not (bytes_eq client.session_id server.session_id)) (is_empty_iff server.session_id)
        (not_iff (bytes_eq client.session_id server.session_id)
          (bytes_eq_iff client.session_id server.session_id)))
      nothing_iff
check_version_iff TlsVersion.v1_3 client server =
    check_iff (not (bytes_eq client.session_id server.session_id)) _ (check_cipher client server)
      (not_iff (bytes_eq client.session_id server.session_id)
        (bytes_eq_iff client.session_id server.session_id))
      (check_cipher_iff client server)

module _ (alice_cert bob_cert : List ℕ) where
  -- The checks on a client and a server find no violation if and only if the two agree.
  pub check_pair_iff :
      (client_finished server_finished : FinishedClaim)
      → (check_pair alice_cert bob_cert client_finished server_finished ≡ none)
        ↔ Agrees alice_cert bob_cert client_finished server_finished
  unfolding check_pair
  check_pair_iff (client_claim, client) (server_claim, server) =
      let bytes = λ (xs ys : List ℕ). not_iff (bytes_eq xs ys) (bytes_eq_iff xs ys) in
      let numbers = λ (a b : ℕ). not_iff (a == b) (==_iff a b) in
      check_iff _ _ _
        (not_iff (tls_version_eq client_claim.protocol_version server_claim.protocol_version)
          (tls_version_eq_iff client_claim.protocol_version server_claim.protocol_version))
        (check_iff _ _ _ (bytes client.master_secret server.master_secret) (
          check_iff _ _ _ (bytes client.server_random server.server_random) (
            check_iff _ _ _ (bytes client.client_random server.client_random) (
              check_iff _ _ _ (numbers client.chosen_cipher server.chosen_cipher) (
                check_iff _ _ _
                  (both_iff _ _ (numbers client.signature_algorithm server.peer_signature_algorithm)
                    (numbers server.signature_algorithm client.peer_signature_algorithm))
                  (check_iff _ _ _ (IsAuthenticated-iff server bob_cert) (
                    check_iff _ _ _ (IsAuthenticated-iff client alice_cert)
                      (check_version_iff client_claim.protocol_version client server))))))))

  -- When the received `Finished` messages among the claims are one of a client and one of a server
  -- of different names, in either order, the policy finds no violation if and only if the two
  -- agree: on version, secret, randoms, cipher, signature algorithms, session id and, in TLS 1.3,
  -- the best cipher, and each has the certificate of the peer that it authenticates.
  pub check_violation_iff :
      (claims : List TlsClaim) (c s : FinishedClaim)
      → c.0.origin ≡ AgentType.client
      → s.0.origin ≡ AgentType.server
      → c.0.agent_name ≢ s.0.agent_name
      → (received_all claims ≡ c ∷ s ∷ []) ⊎ (received_all claims ≡ s ∷ c ∷ [])
      → (check_violation alice_cert bob_cert claims ≡ none) ↔ Agrees alice_cert bob_cert c s
  unfolding check_violation find_two_finished_messages get_client_server
  check_violation_iff claims c s is_client is_server differ received = elim received [
    | inl e ↦
        let other : (c.0.agent_name == s.0.agent_name) ≡ false = ground (arith, differ) in
        rw
          (
            e, other, is_client, is_server, check_violation, find_two_finished_messages,
            get_client_server,
          )
          (check_pair_iff c s)
    | inr e ↦
        let other : (s.0.agent_name == c.0.agent_name) ≡ false = ground (arith, differ) in
        rw
          (
            e, other, is_client, is_server, check_violation, find_two_finished_messages,
            get_client_server,
          )
          (check_pair_iff c s)
  ]

  -- When a single `Finished` message was received, the policy finds no violation if and only if its
  -- receiver does not authenticate its peer or has the certificate of the peer.
  check_violation_single_iff :
      (claims : List TlsClaim) (f : FinishedClaim)
      → received_all claims ≡ f ∷ []
      → (check_violation alice_cert bob_cert claims ≡ none)
        ↔ IsAuthenticated f.1 (peer_of alice_cert bob_cert f.0.origin)
  unfolding check_violation find_two_finished_messages
  check_violation_single_iff claims f e =
      let cert = peer_of alice_cert bob_cert f.0.origin in
      let both =
        check_iff (f.1.authenticate_peer && not (bytes_eq f.1.peer_certificate cert))
          "Authentication bypass" none (IsAuthenticated-iff f.1 cert) nothing_iff in
      rw (e, check_violation, find_two_finished_messages)
        (rw e ((λ h. (both.0 h).0), λ h. both.1 (h, tt)))
