-- ===== src/Tests/PolicyRuns.antt =====
-- The theorems on the security policy at small claims.
use tlspuffin.Base.{ℕ, ◌≡◌, refl, ◌↔◌, inr, Bool, true, false, [], ◌∷◌, none, some, arith}
use tlspuffin.Agent.{AgentType, TlsVersion}
use tlspuffin.Tls.Claims.{Finished, TlsClaim, message, finished, client_hello}
use tlspuffin.Tls.Policy.{received_all, check_violation}
use tlspuffin.Tls.Agreement.{Agrees}
use tlspuffin.Tls.PolicyLaws.{check_violation_iff}

abbrev handshake : Bool → Finished
handshake authenticate_peer = record {
  outbound = false;
  client_random = 1 ∷ [];
  server_random = 2 ∷ [];
  session_id = [];
  authenticate_peer = authenticate_peer;
  peer_certificate = 77 ∷ [];
  master_secret = 3 ∷ [];
  chosen_cipher = 4865;
  available_ciphers = 4866 ∷ 4865 ∷ [];
  signature_algorithm = 8;
  peer_signature_algorithm = 8;
}

abbrev claim_of : ℕ → AgentType → Finished → TlsClaim
claim_of name origin f = record {
  agent_name = name;
  origin = origin;
  protocol_version = TlsVersion.v1_3;
  data_value = message (finished f);
}

abbrev client_claim : TlsClaim
client_claim = claim_of 0 AgentType.client (handshake true)

abbrev server_claim : TlsClaim
server_claim = claim_of 1 AgentType.server (handshake false)

abbrev hello_claim : TlsClaim
hello_claim = record server_claim { data_value = message client_hello }

both_received :
    received_all (server_claim ∷ hello_claim ∷ client_claim ∷ [])
    ≡ (server_claim, handshake false) ∷ (client_claim, handshake true) ∷ []
unfolding received_all
both_received = refl

check_violation_iff_example :
    (check_violation (77 ∷ []) (66 ∷ []) (server_claim ∷ hello_claim ∷ client_claim ∷ []) ≡ none)
    ↔ Agrees (77 ∷ []) (66 ∷ []) (client_claim, handshake true) (server_claim, handshake false)
check_violation_iff_example =
    check_violation_iff (77 ∷ []) (66 ∷ []) (server_claim ∷ hello_claim ∷ client_claim ∷ [])
      (client_claim, handshake true) (server_claim, handshake false) refl refl
      (λ e. omega (arith, e)) (inr both_received)

-- The best cipher of the server was not chosen.
downgrade_found :
    check_violation (77 ∷ []) (66 ∷ []) (server_claim ∷ client_claim ∷ [])
    ≡ some "Not the best cipher choosen"
unfolding check_violation
downgrade_found = refl
