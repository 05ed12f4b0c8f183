-- ===== src/Execution/Put.antt =====
-- puffin/src/put.rs, put_registry.rs and protocol.rs: the interface of a program under test (PUT), the
-- registry of the factories, and what a protocol defines.
use Prim.Native.String.{String}
use text.Mathlib.Text.{◌==◌ as str_eq}
use tlspuffin.Base.{ℕ, Bool, List, ◌++◌, Option, none, some, find, and_then, Result, ok, err}
use tlspuffin.Agent.{AgentName, AgentDescriptor}
use tlspuffin.Trace.Context.{Matcher, Claim}
use tlspuffin.Trace.Evaluation.{Error}

-- A PUT name is ten characters.
abbrev pub PutName : Type 0
PutName = String

unfoldable pub dummy_put : PutName
dummy_put = "DUMYYDUMMY"

pub record PutOptions : Type 0 where
  pub options : List (String × String)

pub record PutDescriptor : Type 0 where
  pub name : PutName
  pub options : PutOptions

unfoldable pub get_option : PutOptions → String → Option String
get_option o key = and_then (find (λ entry. str_eq entry.0 key) o.options) (λ entry. some entry.1)

-- A message that the deframer took out, with its structured form where it decodes.
pub record MessageResult (Msg Opaque : Type 0) : Type 0 where
  pub message : Option Msg
  pub opaque_message : Opaque

-- The trait `Put`, with the trait `Stream` that it extends, as operations on a state `P`. A PUT holds a
-- reference to the list of claims of the context and its callbacks add to it, so that its methods are
-- given the list and give it back.
pub record Put (P C Msg Opaque : Type 0) : Type 0 where
  pub progress : AgentName → P → List C → Result Error (Unit {0}) × P × List C
  pub reset : AgentName → P → List C → Result Error (Unit {0}) × P × List C
  pub rename_agent : AgentName → P → List C → Result Error (Unit {0}) × P × List C
  pub set_deterministic : P → List C → Result Error (Unit {0}) × P × List C
  pub descriptor : P → AgentDescriptor
  pub is_state_successful : P → Bool
  pub add_to_inbound : Opaque → P → P
  pub take_message_from_outbound : P → Result Error (Option (MessageResult Msg Opaque)) × P

-- What the traits `ProtocolBehavior`, `ProtocolMessage` and `OpaqueProtocolMessage` define. The
-- functions `as_message` and `as_opaque_message` are the downcasts of a boxed value.
pub record ProtocolBehavior (V M C Msg Opaque : Type 0) : Type 0 where
  pub matcher : Matcher M
  pub try_from : MessageResult Msg Opaque → Result Error M
  pub type_id : V → ℕ
  pub claim : C → Claim V
  pub check_violation : List C → Option String
  pub create_opaque : Msg → Opaque
  pub extract_message : Msg → Result Error (List V)
  pub extract_opaque : Opaque → Result Error (List V)
  pub as_message : V → Option Msg
  pub as_opaque_message : V → Option Opaque

module _ {V M C Msg Opaque : Type 0} (pb : ProtocolBehavior V M C Msg Opaque) where
  unfoldable pub create_matcher : MessageResult Msg Opaque → Option M
  create_matcher m = elim (pb.try_from m) [ ok matcher ↦ some matcher | err e ↦ none ]

  -- `MessageResult::extract_knowledge`
  unfoldable pub extract_knowledge : MessageResult Msg Opaque → Result Error (List V)
  extract_knowledge m =
      let opaque_knowledge = pb.extract_opaque m.opaque_message in
      elim m.message [
        | none ↦ opaque_knowledge
        | some message ↦ elim opaque_knowledge [
          | err e ↦ pb.extract_message message
          | ok opaque ↦ elim (pb.extract_message message) [
            | ok knowledge ↦ ok (knowledge ++ opaque)
            | err e ↦ err e
          ]
        ]
      ]
