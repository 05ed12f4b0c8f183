-- ===== src/Execution/Context.antt =====
-- puffin/src/trace.rs, puffin/src/agent.rs and puffin/src/put_registry.rs: the context that a trace
-- runs in, and its operations on the knowledge, the claims and the PUT descriptors.
use text.Mathlib.Text.{◌==◌ as str_eq}
use tlspuffin.Base.{
  Bool, false, List, [], ◌∷◌, ◌++◌, map, Option, none, some, find, ◌==◌, Result, ok, err,
}
use tlspuffin.Agent.{AgentName, AgentDescriptor}
use tlspuffin.Trace.Context.{Knowledge, Environment}
use tlspuffin.Trace.Evaluation.{Error, security_claim}
use tlspuffin.Execution.Put.{PutName, PutDescriptor, ProtocolBehavior}
use tlspuffin.Execution.Monad.{Exec, modify}

pub record Agent (P : Type 0) : Type 0 where
  pub name : AgentName
  pub put : P
  pub put_descriptor : PutDescriptor

-- The map of the PUT descriptors is an association list, in which the first entry of a name counts.
-- The static reference to the registry is a parameter of the operations.
pub record TraceContext (V M C P : Type 0) : Type 0 where
  pub knowledge : List (Knowledge V M)
  pub agents : List (Agent P)
  pub claims : List C
  pub put_descriptors : List (AgentName × PutDescriptor)
  pub deterministic : Bool

-- A factory is given the context to read, and the PUT that it creates may add claims to the list.
pub record Factory (V M C P : Type 0) : Type 0 where
  pub name : PutName
  pub create : TraceContext V M C P → AgentDescriptor → Result Error P × List C

pub record PutRegistry (V M C P : Type 0) : Type 0 where
  pub factories : List (Factory V M C P)
  pub default : Factory V M C P

module _ {V M C P : Type 0} where
  unfoldable pub new_context : TraceContext V M C P
  new_context = record {
    knowledge = [];
    agents = [];
    claims = [];
    put_descriptors = [];
    deterministic = false;
  }

  unfoldable pub add_knowledge : Knowledge V M → Exec (TraceContext V M C P) (Unit {0})
  unfolding modify
  add_knowledge k = modify λ ctx. record ctx { knowledge = ctx.knowledge ++ k ∷ [] }

  unfoldable pub set_non_default_put :
      AgentName → PutDescriptor → TraceContext V M C P → TraceContext V M C P
  set_non_default_put name d ctx = record ctx { put_descriptors = (name, d) ∷ ctx.put_descriptors }

  unfoldable pub set_non_default_puts :
      List (AgentName × PutDescriptor) → TraceContext V M C P → TraceContext V M C P
  unfolding set_non_default_put
  set_non_default_puts [] ctx = ctx
  set_non_default_puts ((name, d) ∷ ds) ctx =
      set_non_default_puts ds (set_non_default_put name d ctx)

  unfoldable pub set_deterministic : Bool → TraceContext V M C P → TraceContext V M C P
  set_deterministic deterministic ctx = record ctx { deterministic = deterministic }

  unfoldable pub find_factory : PutRegistry V M C P → PutName → Option (Factory V M C P)
  find_factory registry put_name = find (λ factory. str_eq factory.name put_name) registry.factories

  -- The PUT of an agent: the one that is set for it, or the default one with no options.
  unfoldable pub put_descriptor :
      PutRegistry V M C P → TraceContext V M C P → AgentDescriptor → PutDescriptor
  put_descriptor registry ctx agent_descriptor =
      elim (find (λ entry. entry.0 == agent_descriptor.name) ctx.put_descriptors) [
        | some entry ↦ entry.1
        | none ↦ record { name = registry.default.name; options = record { options = [] } }
      ]

module _ {V M C Msg Opaque : Type 0} (pb : ProtocolBehavior V M C Msg Opaque) {P : Type 0} where
  -- What the evaluation of a recipe reads.
  unfoldable pub environment : TraceContext V M C P → Environment V M
  environment ctx = record { knowledge = ctx.knowledge; claims = map pb.claim ctx.claims }

  unfoldable pub verify_security_violations : TraceContext V M C P → Result Error (Unit {0})
  verify_security_violations ctx = elim (pb.check_violation ctx.claims) [
    | some msg ↦ err (security_claim msg)
    | none ↦ ok tt
  ]
