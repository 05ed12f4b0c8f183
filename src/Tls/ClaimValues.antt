-- ===== src/Tls/ClaimValues.antt =====
-- tlspuffin/src/claims.rs: a TLS claim as the knowledge of a trace: the type that it is filed under, and its
-- boxed content. The shapes of types and the boxing of values are parameters.
use tlspuffin.Base.{ℕ, List}
use tlspuffin.Algebra.Shape.{TypeShape}
use tlspuffin.Trace.Context.{Claim}
use tlspuffin.Tls.Claims.{
  Finished, client_hello_transcript, partial_client_hello_transcript, server_hello_transcript,
  certificate_transcript, server_finished_transcript, client_finished_transcript, client_hello,
  server_hello, certificate, certificate_verify, finished, ClaimData, transcript, message, TlsClaim,
}

-- The Rust types of what is claimed.
pub data ClaimType : Type 0 where
  type_client_hello type_server_hello type_certificate type_certificate_verify type_finished :
      ClaimType
  type_transcript_client_hello type_transcript_partial_client_hello : ClaimType
  type_transcript_server_hello type_transcript_certificate : ClaimType
  type_transcript_server_finished type_transcript_client_finished : ClaimType

-- `TypeShape::of`, and boxed values of the types.
pub record Boxing (V : Type 0) : Type 0 where
  pub shape : ClaimType → TypeShape
  pub box_unit : ClaimType → V
  pub box_finished : Finished → V
  pub box_transcript : ClaimType → List ℕ → ℕ → V

module _ {V : Type 0} (b : Boxing V) where
  unfoldable pub claim_id : ClaimData → TypeShape
  claim_id (message client_hello) = b.shape type_client_hello
  claim_id (message server_hello) = b.shape type_server_hello
  claim_id (message certificate) = b.shape type_certificate
  claim_id (message certificate_verify) = b.shape type_certificate_verify
  claim_id (message (finished f)) = b.shape type_finished
  claim_id (transcript (client_hello_transcript bytes n)) = b.shape type_transcript_client_hello
  claim_id (transcript (partial_client_hello_transcript bytes n)) =
      b.shape type_transcript_partial_client_hello
  claim_id (transcript (server_hello_transcript bytes n)) = b.shape type_transcript_server_hello
  claim_id (transcript (server_finished_transcript bytes n)) =
      b.shape type_transcript_server_finished
  claim_id (transcript (client_finished_transcript bytes n)) =
      b.shape type_transcript_client_finished
  claim_id (transcript (certificate_transcript bytes n)) = b.shape type_transcript_certificate

  unfoldable pub claim_inner : ClaimData → V
  claim_inner (message client_hello) = b.box_unit type_client_hello
  claim_inner (message server_hello) = b.box_unit type_server_hello
  claim_inner (message certificate) = b.box_unit type_certificate
  claim_inner (message certificate_verify) = b.box_unit type_certificate_verify
  claim_inner (message (finished f)) = b.box_finished f
  claim_inner (transcript (client_hello_transcript bytes n)) =
      b.box_transcript type_transcript_client_hello bytes n
  claim_inner (transcript (partial_client_hello_transcript bytes n)) =
      b.box_transcript type_transcript_partial_client_hello bytes n
  claim_inner (transcript (server_hello_transcript bytes n)) =
      b.box_transcript type_transcript_server_hello bytes n
  claim_inner (transcript (server_finished_transcript bytes n)) =
      b.box_transcript type_transcript_server_finished bytes n
  claim_inner (transcript (client_finished_transcript bytes n)) =
      b.box_transcript type_transcript_client_finished bytes n
  claim_inner (transcript (certificate_transcript bytes n)) =
      b.box_transcript type_transcript_certificate bytes n

  unfoldable pub tls_claim : TlsClaim → Claim V
  unfolding claim_id claim_inner
  tls_claim c = record {
    agent_name = c.agent_name;
    id = claim_id c.data_value;
    inner = claim_inner c.data_value;
  }
