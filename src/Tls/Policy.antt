-- ===== src/Tls/Policy.antt =====
-- tlspuffin/src/tls/violation.rs: the security policy. The two certificates of the static keys are
-- parameters.
use Prim.Native.String.{String}
use tlspuffin.Base.{
  bytes_eq, ℕ, Bool, true, false, not, ◌&&◌, ◌||◌, List, [], ◌∷◌, Option, none, some, ◌==◌, find,
  any, if◌then◌else◌,
}
use tlspuffin.Agent.{AgentType, TlsVersion, tls_version_eq}
use tlspuffin.Tls.Claims.{Finished, TlsClaim, ClaimData, message, finished}

abbrev pub FinishedClaim : Type 0
FinishedClaim = TlsClaim × Finished

-- The `Finished` message that an agent received, if the claim is about one.
abbrev pub received_data : TlsClaim → ClaimData → Option FinishedClaim
received_data claim (message (finished content)) =
    if content.outbound then none else some (claim, content)
received_data claim _ = none

abbrev pub received_finished : TlsClaim → Option FinishedClaim
received_finished claim = received_data claim claim.data_value

-- `filter_map` with that function.
unfoldable pub received_all : List TlsClaim → List FinishedClaim
received_all [] = []
received_all (claim ∷ claims) =
    let rest = received_all claims in
    elim (received_finished claim) [ none ↦ rest | some f ↦ f ∷ rest ]

-- Exactly two, of two agents.
abbrev pub exactly_two : List FinishedClaim → Option (FinishedClaim × FinishedClaim)
exactly_two (a ∷ b ∷ []) = if a.0.agent_name == b.0.agent_name then none else some (a, b)
exactly_two _ = none

unfoldable pub find_two_finished_messages : List TlsClaim → Option (FinishedClaim × FinishedClaim)
unfolding received_all
find_two_finished_messages claims = exactly_two (received_all claims)

abbrev pub by_origin :
    AgentType → AgentType → FinishedClaim → FinishedClaim → Option (FinishedClaim × FinishedClaim)
by_origin AgentType.server AgentType.server a b = none
by_origin AgentType.server AgentType.client a b = some (b, a)
by_origin AgentType.client AgentType.server a b = some (a, b)
by_origin AgentType.client AgentType.client a b = none

-- The client first.
unfoldable pub get_client_server :
    FinishedClaim → FinishedClaim → Option (FinishedClaim × FinishedClaim)
get_client_server a b = by_origin a.0.origin b.0.origin a b

-- The first cipher of the server that the client has too.
unfoldable pub best_cipher : List ℕ → List ℕ → Option ℕ
best_cipher client_ciphers server_ciphers =
    find (λ server_cipher. any (λ c. c == server_cipher) client_ciphers) server_ciphers

abbrev pub is_empty : List ℕ → Bool
is_empty [] = true
is_empty (x ∷ xs) = false

unfoldable pub check_cipher : Finished → Finished → Option String
unfolding best_cipher
check_cipher client server =
    if not (is_empty client.available_ciphers) && not (is_empty server.available_ciphers)
    then (elim (best_cipher client.available_ciphers server.available_ciphers) [
      | none ↦ none
      | some best ↦
          if not (best == server.chosen_cipher)
          then some "Not the best cipher choosen"
          else if not (best == client.chosen_cipher)
          then some "Not the best cipher choosen"
          else none
    ])
    else none

unfoldable pub check_version : TlsVersion → Finished → Finished → Option String
unfolding check_cipher
check_version TlsVersion.v1_2 client server =
    if not (is_empty server.session_id) && not (bytes_eq client.session_id server.session_id)
    then some "Mismatching session ids"
    else none
check_version TlsVersion.v1_3 client server =
    if not (bytes_eq client.session_id server.session_id)
    then some "Mismatching session ids"
    else check_cipher client server

module _ (alice_cert bob_cert : List ℕ) where
  unfoldable pub check_pair : FinishedClaim → FinishedClaim → Option String
  unfolding check_version tls_version_eq
  check_pair (client_claim, client) (server_claim, server) =
      if not (tls_version_eq client_claim.protocol_version server_claim.protocol_version)
      then some "Mismatching versions"
      else if not (bytes_eq client.master_secret server.master_secret)
      then some "Mismatching master secrets"
      else if not (bytes_eq client.server_random server.server_random)
      then some "Mismatching server random"
      else if not (bytes_eq client.client_random server.client_random)
      then some "Mismatching client random"
      else if not (client.chosen_cipher == server.chosen_cipher)
      then some "Mismatching ciphers"
      else if not (client.signature_algorithm == server.peer_signature_algorithm)
          || not (server.signature_algorithm == client.peer_signature_algorithm)
      then some "mismatching signature algorithms"
      else if server.authenticate_peer && not (bytes_eq server.peer_certificate bob_cert)
      then some "Authentication bypass"
      else if client.authenticate_peer && not (bytes_eq client.peer_certificate alice_cert)
      then some "Authentication bypass"
      else check_version client_claim.protocol_version client server

  abbrev pub peer_of : AgentType → List ℕ
  peer_of AgentType.server = bob_cert
  peer_of AgentType.client = alice_cert

  -- The first received message, when there are not two of two agents.
  abbrev pub check_first : List FinishedClaim → Option String
  check_first [] = none
  check_first ((claim, finished_data) ∷ rest) =
      if finished_data.authenticate_peer
        && not (bytes_eq finished_data.peer_certificate (peer_of claim.origin))
      then some "Authentication bypass"
      else none

  unfoldable pub check_violation : List TlsClaim → Option String
  unfolding find_two_finished_messages get_client_server check_pair received_all
  check_violation claims = elim (find_two_finished_messages claims) [
    | some (a, b) ↦ elim (get_client_server a b) [
      | some (client, server) ↦ check_pair client server
      | none ↦ none
    ]
    | none ↦ check_first (received_all claims)
  ]
