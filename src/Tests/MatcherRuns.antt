-- ===== src/Tests/MatcherRuns.antt =====
-- The theorems on matchers and on the claims of TLS at a small protocol.
use tlspuffin.Base.{ℕ, ◌≡◌, refl, ◌==◌, ==_iff, false, length, [], ◌∷◌, none, ok}
use tlspuffin.Agent.{AgentType, TlsVersion}
use tlspuffin.Algebra.Shape.{TypeShape}
use tlspuffin.Algebra.Term.{Term, variable}
use tlspuffin.Algebra.Typing.{WellTyped}
use tlspuffin.Trace.Evaluation.{evaluate}
use tlspuffin.Trace.Soundness.{AllLinked, Yields}
use tlspuffin.Trace.Matchers.{IsMatcher, option_matcher}
use tlspuffin.Execution.Put.{ProtocolBehavior}
use tlspuffin.Execution.Context.{TraceContext, environment}
use tlspuffin.Tls.Query.{tls_matcher}
use tlspuffin.Tls.QueryLaws.{tls_matcher-IsMatcher}
use tlspuffin.Tls.Claims.{TlsClaim, transcript, client_hello_transcript}
use tlspuffin.Tls.ClaimValues.{
  ClaimType, type_finished, type_transcript_client_hello, Boxing, tls_claim,
}
use tlspuffin.Tls.ClaimLaws.{IsBoxing, evaluate-tls_sound}
use tlspuffin.Tests.Fixtures.{Value, value_type, exact_matcher}

tls_matcher-IsMatcher_example :
    IsMatcher (tls_matcher {H = ℕ} ◌==◌) × IsMatcher (option_matcher (tls_matcher {H = ℕ} ◌==◌))
tls_matcher-IsMatcher_example =
    tls_matcher-IsMatcher {H = ℕ} {handshake_eq = ◌==◌} (λ a b. ==_iff a b)

abbrev type_number : ClaimType → ℕ
type_number type_transcript_client_hello = 31
type_number type_finished = 32
type_number _ = 33

-- A boxed value is the id of its type and a number.
abbrev boxing : Boxing Value
boxing = record {
  shape = λ t. record { inner_type_id = type_number t; name = "claimed" };
  box_unit = λ t. (type_number t, 0);
  box_finished = λ f. (32, length f.client_random);
  box_transcript = λ t bytes n. (type_number t, n);
}

abbrev tls_protocol : ProtocolBehavior Value ℕ TlsClaim ℕ ℕ
tls_protocol = record {
  matcher = exact_matcher;
  try_from = λ m. ok m.opaque_message;
  type_id = value_type;
  claim = tls_claim boxing;
  check_violation = λ claims. none;
  create_opaque = λ m. m;
  extract_message = λ m. ok [];
  extract_opaque = λ m. ok [];
  as_message = λ v. none;
  as_opaque_message = λ v. none;
}

boxing-IsBoxing : IsBoxing value_type boxing
boxing-IsBoxing = record {
  at_unit = λ t. refl;
  at_finished = λ f. refl;
  at_transcript = λ t bytes n. refl;
}

abbrev claimed : TraceContext Value ℕ TlsClaim ℕ
claimed = record {
  knowledge = [];
  agents = [];
  claims =
      record {
        agent_name = 0;
        origin = AgentType.server;
        protocol_version = TlsVersion.v1_3;
        data_value = transcript (client_hello_transcript (1 ∷ 2 ∷ 3 ∷ []) 3);
      }
      ∷ [];
  put_descriptors = [];
  deterministic = false;
}

-- The transcript that agent 0 claimed is looked up.
abbrev transcript_shape : TypeShape
transcript_shape = boxing.shape type_transcript_client_hello

abbrev of_transcript : Term Value ℕ
of_transcript = variable (record {
  typ = transcript_shape;
  query = record { agent_name = 0; matcher = none; counter = 0 };
})

of_transcript-WellTyped : WellTyped of_transcript
unfolding WellTyped
of_transcript-WellTyped = tt

of_transcript-AllLinked : AllLinked value_type of_transcript
unfolding AllLinked
of_transcript-AllLinked = tt

transcript_found :
    evaluate value_type exact_matcher (environment tls_protocol claimed) of_transcript ≡ ok (31, 3)
unfolding evaluate environment tls_claim
transcript_found = refl

evaluate-tls_sound_example :
    Yields value_type 31
      (evaluate value_type exact_matcher (environment tls_protocol claimed) of_transcript)
evaluate-tls_sound_example =
    evaluate-tls_sound tls_protocol boxing boxing-IsBoxing refl claimed of_transcript
      of_transcript-WellTyped of_transcript-AllLinked
