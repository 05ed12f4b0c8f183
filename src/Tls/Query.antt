-- ===== src/Tls/Query.antt =====
-- tlspuffin/src/query.rs: the matchers of TLS messages. The types of the messages are those of the copy of
-- rustls: a message is read by the functions of `TlsMessages`, and handshake types are a parameter.
use tlspuffin.Base.{ℕ, ◌+◌, Bool, true, false, Option, none, some, Result, ok, err}
use tlspuffin.Trace.Context.{Matcher, option_matches, option_eq}
use tlspuffin.Trace.Evaluation.{Error, extraction}
use tlspuffin.Execution.Put.{MessageResult}

pub data TlsQueryMatcher (H : Type 0) : Type 0 where
  change_cipher_spec : TlsQueryMatcher H
  alert : TlsQueryMatcher H
  handshake : Option H → TlsQueryMatcher H
  application_data : TlsQueryMatcher H
  heartbeat : TlsQueryMatcher H

-- The content types and payloads, as far as the code tells them apart.
pub data ContentType : Type 0 where
  of_handshake of_application_data of_heartbeat of_alert of_change_cipher_spec of_unknown :
      ContentType

pub data PayloadKind (H : Type 0) : Type 0 where
  of_type : H → PayloadKind H
  tls12_encrypted : PayloadKind H
  other_payload : PayloadKind H

pub record TlsMessages (H Msg Opaque : Type 0) : Type 0 where
  pub typ : Opaque → ContentType
  pub payload : Msg → PayloadKind H

-- tlspuffin/src/protocol.rs: a handshake type matches itself.
unfoldable pub handshake_matcher : {H : Type 0} → (H → H → Bool) → Matcher H
handshake_matcher handshake_eq = record {
  matches = λ h matcher. handshake_eq matcher h;
  specificity = λ h. 1;
  matcher_eq = handshake_eq;
}

module _ {H : Type 0} (handshake_eq : H → H → Bool) where
  unfoldable pub tls_matches : TlsQueryMatcher H → TlsQueryMatcher H → Bool
  unfolding handshake_matcher option_matches
  tls_matches (handshake typ) (handshake query) =
      option_matches (handshake_matcher handshake_eq) typ query
  tls_matches change_cipher_spec change_cipher_spec = true
  tls_matches alert alert = true
  tls_matches heartbeat heartbeat = true
  tls_matches application_data application_data = true
  tls_matches _ _ = false

  unfoldable pub tls_specificity : TlsQueryMatcher H → ℕ
  unfolding handshake_matcher
  tls_specificity (handshake none) = 1 + 0
  tls_specificity (handshake (some typ)) = 1 + (handshake_matcher handshake_eq).specificity typ
  tls_specificity _ = 0

  -- The equality that the source derives.
  unfoldable pub tls_matcher_eq : TlsQueryMatcher H → TlsQueryMatcher H → Bool
  unfolding handshake_matcher option_eq
  tls_matcher_eq (handshake a) (handshake b) = option_eq (handshake_matcher handshake_eq) a b
  tls_matcher_eq change_cipher_spec change_cipher_spec = true
  tls_matcher_eq alert alert = true
  tls_matcher_eq heartbeat heartbeat = true
  tls_matcher_eq application_data application_data = true
  tls_matcher_eq _ _ = false

  unfoldable pub tls_matcher : Matcher (TlsQueryMatcher H)
  unfolding tls_matches tls_specificity tls_matcher_eq
  tls_matcher = record {
    matches = tls_matches;
    specificity = tls_specificity;
    matcher_eq = tls_matcher_eq;
  }

-- `TryFrom<&MessageResult<Message, OpaqueMessage>>`
unfoldable pub tls_try_from :
    {H Msg Opaque : Type 0}
    → TlsMessages H Msg Opaque
    → MessageResult Msg Opaque
    → Result Error (TlsQueryMatcher H)
tls_try_from messages message_result = elim (messages.typ message_result.opaque_message) [
  | of_handshake ↦ elim message_result.message [
    | none ↦ ok (handshake none)
    | some message ↦ elim (messages.payload message) [
      | of_type typ ↦ ok (handshake (some typ))
      | tls12_encrypted ↦ ok (handshake none)
      | other_payload ↦ err extraction
    ]
  ]
  | of_application_data ↦ ok application_data
  | of_heartbeat ↦ ok heartbeat
  | of_alert ↦ ok alert
  | of_change_cipher_spec ↦ ok change_cipher_spec
  | of_unknown ↦ err extraction
]
