-- ===== src/Execution/Roles.antt =====
-- puffin/src/trace.rs, `spawn_agents`, and puffin/src/put.rs, `is_reusable_with`: the agents by role.
use tlspuffin.Base.{
  ℕ, ◌+◌, ◌≤◌, ◌⊎◌, ◌≡◌, refl, ap, false, ◌&&◌, List, [], ◌∷◌, ◌++◌, length, All, if◌then◌else◌,
  arith, inl, inr,
}
use tlspuffin.Agent.{
  AgentType, server, client, TlsVersion, v1_2, v1_3, AgentDescriptor, agent_type_eq, tls_version_eq,
  is_reusable_with,
}
use tlspuffin.Trace.Defs.{Trace}
use tlspuffin.Execution.Put.{Put, ProtocolBehavior}
use tlspuffin.Execution.Context.{Agent, TraceContext, PutRegistry}
use tlspuffin.Execution.Actions.{execute}
use tlspuffin.Execution.Contract.{role, IsPut, IsRegistry}
use tlspuffin.Execution.Effects.{Change, learned, claimed, spawned, updated, Reach, here, next}
use tlspuffin.Execution.Refinement.{execute-Reach}

-- Whether a role is the given one, as a number.
abbrev hit : AgentType → TlsVersion → AgentType × TlsVersion → ℕ
hit t v (t', v') = if agent_type_eq t' t && tls_version_eq v' v then 1 else 0

hit_le : (t : AgentType) (v : TlsVersion) (r : AgentType × TlsVersion) → hit t v r ≤ 1
hit_le t v (t', v') = ground arith

-- A role that is hit is the one asked for.
hit-cases :
    (t : AgentType) (v : TlsVersion) (t' : AgentType) (v' : TlsVersion)
    → (hit t v (t', v') ≡ 0) ⊎ ((hit t v (t', v') ≡ 1) × (t ≡ t') × (v ≡ v'))
unfolding agent_type_eq tls_version_eq
hit-cases server v1_3 server v1_3 = inr (refl, refl, refl)
hit-cases server v1_2 server v1_2 = inr (refl, refl, refl)
hit-cases client v1_3 client v1_3 = inr (refl, refl, refl)
hit-cases client v1_2 client v1_2 = inr (refl, refl, refl)
hit-cases server v1_3 server v1_2 = inl refl
hit-cases server v1_2 server v1_3 = inl refl
hit-cases client v1_3 client v1_2 = inl refl
hit-cases client v1_2 client v1_3 = inl refl
hit-cases server v1_3 client v' = inl refl
hit-cases server v1_2 client v' = inl refl
hit-cases client v1_3 server v' = inl refl
hit-cases client v1_2 server v' = inl refl

-- Every role is one of the four.
hit_total :
    (r : AgentType × TlsVersion)
    → hit server v1_3 r + (hit server v1_2 r + (hit client v1_3 r + hit client v1_2 r)) ≡ 1
unfolding agent_type_eq tls_version_eq
hit_total (server, v1_3) = refl
hit_total (server, v1_2) = refl
hit_total (client, v1_3) = refl
hit_total (client, v1_2) = refl

module _ {P C Msg Opaque : Type 0} (put : Put P C Msg Opaque) where
  -- How many of the agents have a role.
  abbrev pub number_of : AgentType → TlsVersion → List (Agent P) → ℕ
  number_of t v [] = 0
  number_of t v (a ∷ rest) = hit t v (role (put.descriptor a.put)) + number_of t v rest

  -- No two agents have one role.
  abbrev pub HasOneEach : List (Agent P) → Type 0
  HasOneEach agents = (t : AgentType) (v : TlsVersion) → number_of t v agents ≤ 1

  number_of-append :
      (t : AgentType) (v : TlsVersion) (xs ys : List (Agent P))
      → number_of t v (xs ++ ys) ≡ number_of t v xs + number_of t v ys
  number_of-append t v [] ys = omega arith
  number_of-append t v (x ∷ xs) ys = omega (arith, number_of-append t v xs ys)

  -- An agent of a role that no agent could be reused for is the first of it.
  number_of-unlike :
      (d : AgentDescriptor) (agents : List (Agent P))
      → All (λ e. is_reusable_with (put.descriptor e.put) d ≡ false) agents
      → number_of d.typ d.tls_version agents ≡ 0
  unfolding is_reusable_with
  number_of-unlike d [] h = refl
  number_of-unlike d (a ∷ rest) (no_, h) = rw no_ (omega (arith, number_of-unlike d rest h))

  number_of_total :
      (agents : List (Agent P))
      → number_of server v1_3 agents
          + (number_of server v1_2 agents
              + (number_of client v1_3 agents + number_of client v1_2 agents))
        ≡ length agents
  number_of_total [] = refl
  number_of_total (a ∷ rest) =
      omega (arith, hit_total (role (put.descriptor a.put)), number_of_total rest)

  HasOneEach-length : (agents : List (Agent P)) → HasOneEach agents → length agents ≤ 4
  HasOneEach-length agents h =
      omega
        (arith, number_of_total agents, h server v1_3, h server v1_2, h client v1_3, h client v1_2)

module _ {V M C Msg Opaque P : Type 0} {put : Put P C Msg Opaque} where
  Change-HasOneEach :
      (c c' : TraceContext V M C P)
      → Change put c c'
      → HasOneEach put c.agents
      → HasOneEach put c'.agents
  Change-HasOneEach c c' (learned k e) h = rw e h
  Change-HasOneEach c c' (claimed new e) h = rw e h
  Change-HasOneEach c c' (spawned d a unlike same e) h = rw e λ t v.
      elim (hit-cases t v d.typ d.tls_version) [
        | inl other ↦
            omega
              (arith, number_of-append put t v c.agents (a ∷ []), ap (hit t v) same, other, h t v)
        | inr (one, is_t, is_v) ↦ omega (
          arith,
          number_of-append put t v c.agents (a ∷ []),
          ap (hit t v) same,
          one,
          ap (λ x. number_of put x v c.agents) is_t,
          ap (λ x. number_of put d.typ x c.agents) is_v,
          number_of-unlike put d c.agents unlike,
        )
      ]
  Change-HasOneEach c c' (updated place a new whole same e) h = rw e λ t v. omega (
    arith,
    ap (hit t v) same,
    number_of-append put t v place.before (a ∷ place.after),
    number_of-append put t v place.before (place.item ∷ place.after),
    ap (number_of put t v) whole,
    h t v,
  )

  Reach-HasOneEach :
      {c c' : TraceContext V M C P}
      → HasOneEach put c.agents
      → Reach put c c'
      → HasOneEach put c'.agents
  Reach-HasOneEach h here = h
  Reach-HasOneEach h (next r ch) = Change-HasOneEach _ _ ch (Reach-HasOneEach h r)

module _ {V M C Msg Opaque P : Type 0} (pb : ProtocolBehavior V M C Msg Opaque)
    {put : Put P C Msg Opaque} (laws : IsPut put) (registry : PutRegistry V M C P)
    (made : IsRegistry put registry) (fuel : ℕ) (trace : Trace V M) where
  -- Where PUTs and factories keep their contract, and no two agents of a context have the same role
  -- and protocol version, this holds after the execution of any trace as well, also one that fails,
  -- and there are four agents at most.
  pub execute-HasOneEach :
      (ctx : TraceContext V M C P)
      → HasOneEach put ctx.agents
      → let agents = (execute pb put registry fuel trace ctx).1.agents in
        HasOneEach put agents × (length agents ≤ 4)
  execute-HasOneEach ctx h =
      let last = Reach-HasOneEach h (execute-Reach pb laws registry made fuel trace ctx) in
      (last, HasOneEach-length put _ last)
