-- ===== src/Tls/Claims.antt =====
-- tlspuffin/src/claims.rs: what the agents claim. Bytes and cipher suites are numbers; a signature
-- algorithm, an i32, is only compared, and is the number of its bits.
use tlspuffin.Base.{ℕ, Bool, List}
use tlspuffin.Agent.{AgentName, AgentType, TlsVersion}

pub record Finished : Type 0 where
  pub outbound : Bool
  pub client_random : List ℕ
  pub server_random : List ℕ
  pub session_id : List ℕ
  pub authenticate_peer : Bool
  pub peer_certificate : List ℕ
  pub master_secret : List ℕ
  pub chosen_cipher : ℕ
  pub available_ciphers : List ℕ
  pub signature_algorithm : ℕ
  pub peer_signature_algorithm : ℕ

-- The bytes of a transcript and how many of them count.
pub data ClaimDataTranscript : Type 0 where
  client_hello_transcript : List ℕ → ℕ → ClaimDataTranscript
  partial_client_hello_transcript : List ℕ → ℕ → ClaimDataTranscript
  server_hello_transcript : List ℕ → ℕ → ClaimDataTranscript
  certificate_transcript : List ℕ → ℕ → ClaimDataTranscript
  server_finished_transcript : List ℕ → ℕ → ClaimDataTranscript
  client_finished_transcript : List ℕ → ℕ → ClaimDataTranscript

pub data ClaimDataMessage : Type 0 where
  client_hello : ClaimDataMessage
  server_hello : ClaimDataMessage
  certificate : ClaimDataMessage
  certificate_verify : ClaimDataMessage
  finished : Finished → ClaimDataMessage

pub data ClaimData : Type 0 where
  transcript : ClaimDataTranscript → ClaimData
  message : ClaimDataMessage → ClaimData

pub record TlsClaim : Type 0 where
  pub agent_name : AgentName
  pub origin : AgentType
  pub protocol_version : TlsVersion
  pub data_value : ClaimData
