-- ===== src/Tls/ClaimLaws.antt =====
-- tlspuffin/src/claims.rs: TLS claims as values of the types that they are filed under.
use tlspuffin.Base.{ℕ, ◌≡◌, sym, subst, List, [], ◌∷◌, map}
use tlspuffin.Algebra.Term.{Term, get_type_shape}
use tlspuffin.Algebra.Typing.{WellTyped}
use tlspuffin.Trace.Evaluation.{evaluate}
use tlspuffin.Trace.Soundness.{ClaimsTyped, AllLinked, Yields, evaluate_sound}
use tlspuffin.Tls.Claims.{
  Finished, client_hello_transcript, partial_client_hello_transcript, server_hello_transcript,
  certificate_transcript, server_finished_transcript, client_finished_transcript, client_hello,
  server_hello, certificate, certificate_verify, finished, ClaimData, transcript, message, TlsClaim,
}
use tlspuffin.Execution.Put.{ProtocolBehavior}
use tlspuffin.Execution.Context.{TraceContext, environment}
use tlspuffin.Tls.ClaimValues.{
  ClaimType, type_client_hello, type_server_hello, type_certificate, type_certificate_verify,
  type_finished, Boxing, claim_id, claim_inner, tls_claim,
}

-- A boxed value has the type id of its type.
pub record IsBoxing {V : Type 0} (type_id : V → ℕ) (b : Boxing V) : Type 0 where
  pub at_unit : (t : ClaimType) → type_id (b.box_unit t) ≡ (b.shape t).inner_type_id
  pub at_finished :
      (f : Finished) → type_id (b.box_finished f) ≡ (b.shape type_finished).inner_type_id
  pub at_transcript :
      (t : ClaimType) (bytes : List ℕ) (n : ℕ)
      → type_id (b.box_transcript t bytes n) ≡ (b.shape t).inner_type_id

module _ {V : Type 0} {type_id : V → ℕ} {b : Boxing V} (laws : IsBoxing type_id b) where
  claim-typed : (c : ClaimData) → type_id (claim_inner b c) ≡ (claim_id b c).inner_type_id
  unfolding claim_id claim_inner
  claim-typed (message client_hello) = laws.at_unit type_client_hello
  claim-typed (message server_hello) = laws.at_unit type_server_hello
  claim-typed (message certificate) = laws.at_unit type_certificate
  claim-typed (message certificate_verify) = laws.at_unit type_certificate_verify
  claim-typed (message (finished f)) = laws.at_finished f
  claim-typed (transcript (client_hello_transcript bytes n)) = laws.at_transcript _ bytes n
  claim-typed (transcript (partial_client_hello_transcript bytes n)) = laws.at_transcript _ bytes n
  claim-typed (transcript (server_hello_transcript bytes n)) = laws.at_transcript _ bytes n
  claim-typed (transcript (server_finished_transcript bytes n)) = laws.at_transcript _ bytes n
  claim-typed (transcript (client_finished_transcript bytes n)) = laws.at_transcript _ bytes n
  claim-typed (transcript (certificate_transcript bytes n)) = laws.at_transcript _ bytes n

  claims-ClaimsTyped : (claims : List TlsClaim) → ClaimsTyped type_id (map (tls_claim b) claims)
  unfolding tls_claim
  claims-ClaimsTyped [] = tt
  claims-ClaimsTyped (c ∷ cs) = (claim-typed c.data_value, claims-ClaimsTyped cs)

-- Where boxed values have the type ids of their types, and a protocol has the claims of TLS, a
-- well-typed recipe whose symbols are made by the macro evaluates in any context of a trace to a
-- value of its type, or to an error that is not about its arguments.
pub evaluate-tls_sound :
    {V M Msg Opaque P : Type 0} (pb : ProtocolBehavior V M TlsClaim Msg Opaque) (b : Boxing V)
    → IsBoxing pb.type_id b
    → pb.claim ≡ tls_claim b
    → (ctx : TraceContext V M TlsClaim P) (term : Term V M) → WellTyped term
    → AllLinked pb.type_id term
    → Yields pb.type_id
        (get_type_shape term).inner_type_id
        (evaluate pb.type_id pb.matcher (environment pb ctx) term)
unfolding environment
evaluate-tls_sound pb b laws same_claim ctx term typed linked =
    evaluate_sound pb.type_id pb.matcher (environment pb ctx)
      (subst (λ f. ClaimsTyped pb.type_id (map f ctx.claims)) (sym same_claim)
        (claims-ClaimsTyped laws ctx.claims))
      term typed linked
