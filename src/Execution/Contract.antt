-- ===== src/Execution/Contract.antt =====
-- puffin/src/put.rs and puffin/src/put_registry.rs: what is relied on of the programs under test and of
-- their factories, which are parameters.
use tlspuffin.Base.{◌≡◌, List, ◌++◌, some, Result, ok}
use tlspuffin.Agent.{AgentDescriptor, AgentType, TlsVersion, AgentName}
use tlspuffin.Trace.Evaluation.{Error}
use tlspuffin.Execution.Put.{PutName, Put}
use tlspuffin.Execution.Context.{TraceContext, Factory, PutRegistry, find_factory}

-- What `is_reusable_with` compares.
abbrev pub role : AgentDescriptor → AgentType × TlsVersion
role d = (d.typ, d.tls_version)

module _ {P C Msg Opaque : Type 0} (put : Put P C Msg Opaque) where
  -- A method keeps the role of its PUT, and adds claims at the end of the list at most.
  abbrev pub KeepsRole : {A : Type 0} → P → List C → Result Error A × P × List C → Type 0
  KeepsRole p claims (r, p', claims') =
      (role (put.descriptor p') ≡ role (put.descriptor p))
      × (new : List C) × (claims' ≡ claims ++ new)

  -- What is relied on of a PUT: its descriptor is that of its creation, and claims are never removed.
  pub record IsPut : Type 0 where
    pub at_progress : (n : AgentName) (p : P) (cs : List C) → KeepsRole p cs (put.progress n p cs)
    pub at_reset : (n : AgentName) (p : P) (cs : List C) → KeepsRole p cs (put.reset n p cs)
    pub at_rename : (n : AgentName) (p : P) (cs : List C) → KeepsRole p cs (put.rename_agent n p cs)
    pub at_set_deterministic : (p : P) (cs : List C) → KeepsRole p cs (put.set_deterministic p cs)
    pub at_inbound :
        (m : Opaque) (p : P)
        → role (put.descriptor (put.add_to_inbound m p)) ≡ role (put.descriptor p)
    pub at_outbound :
        (p : P)
        → role (put.descriptor (put.take_message_from_outbound p).1) ≡ role (put.descriptor p)

module _ {V M C Msg Opaque P : Type 0} (put : Put P C Msg Opaque) where
  -- A created PUT has the role that was asked for.
  pub record IsFactory (factory : Factory V M C P) : Type 0 where
    pub at_claims :
        (ctx : TraceContext V M C P) (d : AgentDescriptor)
        → (new : List C) × ((factory.create ctx d).1 ≡ ctx.claims ++ new)
    pub at_put :
        (ctx : TraceContext V M C P) (d : AgentDescriptor) (p : P)
        → (factory.create ctx d).0 ≡ ok p
        → role (put.descriptor p) ≡ role d

  abbrev pub IsRegistry : PutRegistry V M C P → Type 0
  IsRegistry registry =
      (name : PutName) (factory : Factory V M C P)
      → find_factory registry name ≡ some factory
      → IsFactory factory
