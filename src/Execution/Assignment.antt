-- ===== src/Execution/Assignment.antt =====
-- puffin/src/trace.rs, `spawn_agents`: which agents stand for which descriptors.
use tlspuffin.Base.{
  ◌≡◌, ◌≢◌, refl, sym, ap, ◌∙◌, Bool, true, false, ◌&&◌, List, [], ◌∷◌, ◌++◌, none, some, ok, err,
  Result-cases, inl, inr, Bool-cases, Option-cases, if◌then◌else◌, ◌==◌, arith,
}
use tlspuffin.Agent.{
  AgentName, AgentType, server, client, TlsVersion, v1_2, v1_3, AgentDescriptor, agent_type_eq,
  tls_version_eq, is_reusable_with,
}
use tlspuffin.Trace.Evaluation.{agent}
use tlspuffin.Execution.Monad.{pure, stop, from_result, gets, ◌>>=◌, >>=-eq-ok}
use tlspuffin.Execution.Put.{Put}
use tlspuffin.Execution.Context.{Agent, TraceContext, PutRegistry, find_factory, put_descriptor}
use tlspuffin.Execution.Agents.{Place, write, find_mut, find_agent, call_put, add_agent, rename}
use tlspuffin.Execution.Spawning.{
  create_agent, new_agent, make_deterministic, reuse_or_spawn, spawn_agents,
}
use tlspuffin.Execution.Contract.{role, IsPut, IsRegistry}
use tlspuffin.Execution.AgentLaws.{from_result-state}

abbrev has_role : AgentDescriptor → AgentType × TlsVersion → Bool
has_role d (t, v) = agent_type_eq t d.typ && tls_version_eq v d.tls_version

-- The names and roles of the agents after one more descriptor: the first agent of its role takes its
-- name, and without one it is a new agent.
abbrev pub assign_one :
    AgentDescriptor
    → List (AgentName × (AgentType × TlsVersion))
    → List (AgentName × (AgentType × TlsVersion))
assign_one d [] = (d.name, role d) ∷ []
assign_one d ((n, r) ∷ rest) =
    if has_role d r then (d.name, r) ∷ rest else (n, r) ∷ assign_one d rest

abbrev pub assign :
    List AgentDescriptor
    → List (AgentName × (AgentType × TlsVersion))
    → List (AgentName × (AgentType × TlsVersion))
assign [] known = known
assign (d ∷ ds) known = assign ds (assign_one d known)

module _ {P C Msg Opaque : Type 0} (put : Put P C Msg Opaque) where
  -- The names of the agents with the roles of their PUTs.
  abbrev pub roster : List (Agent P) → List (AgentName × (AgentType × TlsVersion))
  roster [] = []
  roster (a ∷ rest) = (a.name, role (put.descriptor a.put)) ∷ roster rest

  abbrev like : AgentDescriptor → Agent P → Bool
  like d e = is_reusable_with (put.descriptor e.put) d

  roster-reused :
      (d : AgentDescriptor) (agents : List (Agent P)) (place : Place (Agent P)) (a : Agent P)
      → find_mut (like d) agents ≡ some place
      → a.name ≡ d.name
      → role (put.descriptor a.put) ≡ role (put.descriptor place.item.put)
      → roster (write place a) ≡ assign_one d (roster agents)
  unfolding find_mut is_reusable_with
  roster-reused d [] place a h named same = cc
  roster-reused d (x ∷ xs) place a h named same = elim (Bool-cases (like d x)) [
    | inl yes_ ↦ ground arith
    | inr no_ ↦ elim (Option-cases (find_mut (like d) xs)) [
      | inl e ↦ ground arith
      | inr (inner, e) ↦ ground (arith, roster-reused d xs inner a e named)
    ]
  ]

  roster-new :
      (d : AgentDescriptor) (agents : List (Agent P)) (a : Agent P)
      → find_mut (like d) agents ≡ none
      → a.name ≡ d.name
      → role (put.descriptor a.put) ≡ role d
      → roster (agents ++ a ∷ []) ≡ assign_one d (roster agents)
  unfolding find_mut is_reusable_with
  roster-new d [] a h named same = ground arith
  roster-new d (x ∷ xs) a h named same = elim (Bool-cases (like d x)) [
    | inl yes_ ↦ ground arith
    | inr no_ ↦ elim (Option-cases (find_mut (like d) xs)) [
      | inl e ↦ ground (arith, roster-new d xs a e named same)
      | inr (inner, e) ↦ ground arith
    ]
  ]

  roster-kept :
      (p : Agent P → Bool) (agents : List (Agent P)) (place : Place (Agent P)) (a : Agent P)
      → find_mut p agents ≡ some place
      → a.name ≡ place.item.name
      → role (put.descriptor a.put) ≡ role (put.descriptor place.item.put)
      → roster (write place a) ≡ roster agents
  unfolding find_mut
  roster-kept p [] place a h named same = cc
  roster-kept p (x ∷ xs) place a h named same = elim (Bool-cases (p x)) [
    | inl yes_ ↦ ground arith
    | inr no_ ↦ elim (Option-cases (find_mut p xs)) [
      | inl e ↦ ground arith
      | inr (inner, e) ↦ ground (arith, roster-kept p xs inner a e)
    ]
  ]

module _ {V M C Msg Opaque P : Type 0} {put : Put P C Msg Opaque} (laws : IsPut put)
    (registry : PutRegistry V M C P) (made : IsRegistry put registry) where
  new_agent-assign :
      (d : AgentDescriptor) (ctx ctx' : TraceContext V M C P) {n : AgentName}
      → find_mut (like put d) ctx.agents ≡ none
      → new_agent registry d ctx ≡ (ok n, ctx')
      → roster put ctx'.agents ≡ assign_one d (roster put ctx.agents)
  unfolding new_agent create_agent add_agent stop pure from_result ◌>>=◌
  new_agent-assign d ctx ctx' alone run =
      let chosen = put_descriptor registry ctx d in
      elim (Option-cases (find_factory registry chosen.name)) [
        | inl e ↦ cc (rw (e, new_agent, create_agent, ◌>>=◌) at run)
        | inr (factory, e) ↦ elim (Result-cases (factory.create ctx d).0) [
          | inr (error, failed) ↦ cc (rw (e, new_agent, create_agent, ◌>>=◌, failed) at run)
          | inl (p, created) ↦
              let a : Agent P = record { name = d.name; put = p; put_descriptor = chosen } in
              ap (λ out. roster put out.1.agents)
                (sym (rw (e, new_agent, create_agent, ◌>>=◌, created) at run))
              ∙ roster-new put d ctx.agents a alone refl
                  ((made chosen.name factory e).at_put ctx d p created)
        ]
      ]

  reuse_or_spawn-assign :
      (d : AgentDescriptor) (ctx ctx' : TraceContext V M C P) {n : AgentName}
      → reuse_or_spawn put registry d ctx ≡ (ok n, ctx')
      → roster put ctx'.agents ≡ assign_one d (roster put ctx.agents)
  unfolding reuse_or_spawn rename call_put pure
  reuse_or_spawn-assign d ctx ctx' run = elim (Option-cases (find_mut (like put d) ctx.agents)) [
    | inl e ↦ new_agent-assign d ctx ctx' e (rw (e, reuse_or_spawn) at run)
    | inr (place, e) ↦
        let (u, mid, renamed, returned) =
          >>=-eq-ok (rename put place d.name) (λ _. pure d.name) ctx
            (rw (e, reuse_or_spawn) at run) in
        let (r, p, claims) = put.rename_agent d.name place.item.put ctx.claims in
        let a : Agent P = record place.item { name = d.name; put = p } in
        let written : TraceContext V M C P = record ctx {
          agents = write place a;
          claims = claims;
        } in
        let last : ctx' ≡ written =
          ap (λ out. out.1) (sym returned)
          ∙ ap (λ out. out.1) (sym renamed)
          ∙ from_result-state r written in
        ap (λ (c : TraceContext V M C P). roster put c.agents) last
        ∙ roster-reused put d ctx.agents place a e refl
            (laws.at_rename d.name place.item.put ctx.claims).0
  ]

  make_deterministic-roster :
      (name : AgentName) (ctx : TraceContext V M C P)
      → roster put (make_deterministic put name ctx).1.agents ≡ roster put ctx.agents
  unfolding make_deterministic pure
  make_deterministic-roster name ctx =
      elim (Option-cases (find_mut (λ (a : Agent P). a.name == name) ctx.agents)) [
        | inl e ↦ rw (make_deterministic, e) refl
        | inr (place, e) ↦
            rw (make_deterministic, e)
              (roster-kept put _ ctx.agents place _ e refl
                (laws.at_set_deterministic place.item.put ctx.claims).0)
      ]

  -- Where PUTs and factories keep their contract, and the spawning of a list of descriptors
  -- returns, the names and roles of the agents are those of a plain assignment: for each descriptor
  -- in turn the first agent of its role takes its name, and without one an agent is added at the
  -- end.
  pub spawn_agents-assign :
      (ds : List AgentDescriptor) (ctx ctx' : TraceContext V M C P)
      → spawn_agents put registry ds ctx ≡ (ok tt, ctx')
      → roster put ctx'.agents ≡ assign ds (roster put ctx.agents)
  unfolding spawn_agents pure gets
  spawn_agents-assign [] ctx ctx' run = ap (λ out. roster put out.1.agents) (sym run)
  spawn_agents-assign (d ∷ ds) ctx ctx' run =
      let (n, c1, p1, q1) = >>=-eq-ok (reuse_or_spawn put registry d) _ ctx run in
      let (b, c2, p2, q2) =
        >>=-eq-ok (gets (λ (c : TraceContext V M C P). c.deterministic)) _ c1 q1 in
      let (u, c3, p3, q3) = >>=-eq-ok (if b then make_deterministic put n else pure tt) _ c2 q2 in
      let kept : roster put c3.agents ≡ roster put c1.agents =
        ap (λ out. roster put out.1.agents) (sym p3)
        ∙ same b n c2
        ∙ ap (λ out. roster put out.1.agents) (sym p2) in
      spawn_agents-assign ds c3 ctx' q3 ∙ ap (assign ds) (kept ∙ reuse_or_spawn-assign d ctx c1 p1)
    where
      same :
          (b : Bool) (n : AgentName) (c : TraceContext V M C P)
          → roster put ((if b then make_deterministic put n else pure tt) c).1.agents
            ≡ roster put c.agents
      same true n c = make_deterministic-roster n c
      same false n c = refl

  has_role_refl : (d e : AgentDescriptor) → role d ≡ role e → has_role e (role d) ≡ true
  unfolding agent_type_eq tls_version_eq
  has_role_refl d e same = ap (has_role e) same ∙ reflexive e.typ e.tls_version
    where
      reflexive :
          (t : AgentType) (v : TlsVersion) → (agent_type_eq t t && tls_version_eq v v) ≡ true
      reflexive server v1_2 = refl
      reflexive server v1_3 = refl
      reflexive client v1_2 = refl
      reflexive client v1_3 = refl

  alone :
      (name : AgentName) (r : AgentType × TlsVersion) (wanted : AgentName) (agents : List (Agent P))
      → roster put agents ≡ (name, r) ∷ []
      → wanted ≢ name
      → find_mut (λ (a : Agent P). a.name == wanted) agents ≡ none
  unfolding find_mut
  alone name r wanted [] e other = cc
  alone name r wanted (a ∷ []) e other = ground arith
  alone name r wanted (a ∷ b ∷ rest) e other = cc

  -- Where PUTs and factories keep their contract, and two descriptors of different names and one
  -- role and version are spawned without an error in a context with no agents, there is one agent
  -- after it, with the second name, and the first name is not found.
  pub spawn_agents-same_role :
      (d e : AgentDescriptor) (ctx ctx' : TraceContext V M C P)
      → role d ≡ role e
      → d.name ≢ e.name
      → ctx.agents ≡ []
      → spawn_agents put registry (d ∷ e ∷ []) ctx ≡ (ok tt, ctx')
      → (roster put ctx'.agents ≡ (e.name, role d) ∷ [])
        × (find_agent d.name ctx' ≡ err (agent d.name))
  unfolding find_agent
  spawn_agents-same_role d e ctx ctx' same other fresh run =
      let one : roster put ctx'.agents ≡ (e.name, role d) ∷ [] =
        spawn_agents-assign (d ∷ e ∷ []) ctx ctx' run
        ∙ ap (λ agents. assign (d ∷ e ∷ []) (roster put agents)) fresh
        ∙ ap (λ b. if b then (e.name, role d) ∷ [] else (d.name, role d) ∷ (e.name, role e) ∷ [])
            (has_role_refl d e same) in
      (one, rw (find_agent, alone e.name (role d) d.name ctx'.agents one other) refl)
