-- ===== src/Tls/Agreement.antt =====
-- What the policy of tlspuffin/src/tls/violation.rs asks of a client and a server, as equations.
use tlspuffin.Base.{ℕ, ◌≡◌, ◌⊎◌, false, List, [], none, some}
use tlspuffin.Agent.{TlsVersion}
use tlspuffin.Tls.Claims.{Finished}
use tlspuffin.Tls.Policy.{FinishedClaim, best_cipher}

-- The session ids of TLS 1.2: the server sent none, or both have the same.
abbrev pub SessionAgrees : TlsVersion → Finished → Finished → Type 0
SessionAgrees TlsVersion.v1_2 client server =
    (server.session_id ≡ []) ⊎ (client.session_id ≡ server.session_id)
SessionAgrees TlsVersion.v1_3 client server = client.session_id ≡ server.session_id

-- In TLS 1.3 both have the server's first cipher that the client offers, if there is one.
abbrev pub CipherAgrees : TlsVersion → Finished → Finished → Type 0
CipherAgrees TlsVersion.v1_2 client server = Unit
CipherAgrees TlsVersion.v1_3 client server =
    (best_cipher client.available_ciphers server.available_ciphers ≡ none)
    ⊎ (best_cipher client.available_ciphers server.available_ciphers ≡ some server.chosen_cipher)
      × (client.chosen_cipher ≡ server.chosen_cipher)

-- An agent that authenticates its peer has the peer's certificate.
abbrev pub IsAuthenticated : Finished → List ℕ → Type 0
IsAuthenticated f cert = (f.authenticate_peer ≡ false) ⊎ (f.peer_certificate ≡ cert)

-- What a client and a server agree on after a handshake.
abbrev pub Agrees : List ℕ → List ℕ → FinishedClaim → FinishedClaim → Type 0
Agrees alice_cert bob_cert (client_claim, client) (server_claim, server) =
    (client_claim.protocol_version ≡ server_claim.protocol_version)
    × ((client.master_secret ≡ server.master_secret)
        × ((client.server_random ≡ server.server_random)
            × ((client.client_random ≡ server.client_random)
                × ((client.chosen_cipher ≡ server.chosen_cipher)
                    × (((client.signature_algorithm ≡ server.peer_signature_algorithm)
                          × (server.signature_algorithm ≡ client.peer_signature_algorithm))
                        × (IsAuthenticated server bob_cert
                            × (IsAuthenticated client alice_cert
                                × (SessionAgrees client_claim.protocol_version client server
                                    × CipherAgrees client_claim.protocol_version client
                                        server))))))))
