-- ===== src/Execution/SpawnLaws.antt =====
-- puffin/src/trace.rs, `spawn_agents`, as changes of the context.
use tlspuffin.Base.{
  ◌≡◌, refl, ap, Bool, false, List, [], ◌∷◌, Option-cases, Result-cases, All, if◌then◌else◌, ◌==◌,
  inl, inr,
}
use tlspuffin.Agent.{AgentDescriptor, AgentName, is_reusable_with}
use tlspuffin.Execution.Monad.{pure, gets, ◌>>=◌}
use tlspuffin.Execution.Put.{Put}
use tlspuffin.Execution.Context.{Agent, TraceContext, PutRegistry, find_factory, put_descriptor}
use tlspuffin.Execution.Agents.{find_mut, call_put, rename, add_agent}
use tlspuffin.Execution.Spawning.{
  create_agent, new_agent, reuse_or_spawn, make_deterministic, spawn_agents,
}
use tlspuffin.Execution.Contract.{IsPut, IsRegistry}
use tlspuffin.Execution.Effects.{
  claimed, spawned, Reach, here, next, Reach-one, Follows, bind-Reach, Follows-pure, Follows-bind,
  Follows-gets, Follows-if, follows_rules,
}
use tlspuffin.Execution.AgentLaws.{find_mut_lem, find_mut-eq-none, from_result-state, Reach-method}

module _ {V M C Msg Opaque P : Type 0} {put : Put P C Msg Opaque} (laws : IsPut put) where
  make_deterministic-Follows :
      (name : AgentName) → Follows {V = V} {M = M} put (make_deterministic put name)
  unfolding make_deterministic
  make_deterministic-Follows name = record { at = at }
    where
      at : (ctx : TraceContext V M C P) → Reach put ctx (make_deterministic put name ctx).1
      at ctx = elim (Option-cases (find_mut (λ a. a.name == name) ctx.agents)) [
        | inl e ↦ rw (make_deterministic, e) here
        | inr (place, e) ↦
            rw (make_deterministic, e)
              (Reach-method put ctx place place.item.name
                (put.set_deterministic place.item.put ctx.claims)
                (find_mut_lem _ ctx.agents place e).0
                (laws.at_set_deterministic place.item.put ctx.claims))
      ]

module _ {V M C Msg Opaque P : Type 0} {put : Put P C Msg Opaque} (laws : IsPut put)
    (registry : PutRegistry V M C P) (made : IsRegistry put registry) where
  -- A new agent is only created where no agent can be reused.
  new_agent-Reach :
      (d : AgentDescriptor) (ctx : TraceContext V M C P)
      → All (λ e. is_reusable_with (put.descriptor e.put) d ≡ false) ctx.agents
      → Reach put ctx (new_agent registry d ctx).1
  unfolding new_agent create_agent add_agent ◌>>=◌
  new_agent-Reach d ctx unlike =
      let chosen = put_descriptor registry ctx d in
      elim (Option-cases (find_factory registry chosen.name)) [
        | inl e ↦ rw (e, new_agent, create_agent, ◌>>=◌) here
        | inr (factory, e) ↦
            let law = made chosen.name factory e in
            let (new, grown) = law.at_claims ctx d in
            let first : Reach put ctx (record ctx { claims = (factory.create ctx d).1 }) =
              Reach-one put (claimed new (ap (λ cs. record ctx { claims = cs }) grown)) in
            elim (Result-cases (factory.create ctx d).0) [
              | inl (p, made_ok) ↦
                  rw (e, new_agent, create_agent, ◌>>=◌, made_ok)
                    (next first (
                      spawned d (record { name = d.name; put = p; put_descriptor = chosen }) unlike
                        (law.at_put ctx d p made_ok) refl))
              | inr (error, failed) ↦ rw (e, new_agent, create_agent, ◌>>=◌, failed) first
            ]
      ]

  abbrev like : AgentDescriptor → Agent P → Bool
  like d e = is_reusable_with (put.descriptor e.put) d

  reuse_or_spawn-Follows : (d : AgentDescriptor) → Follows put (reuse_or_spawn put registry d)
  unfolding reuse_or_spawn rename
  reuse_or_spawn-Follows d = record { at = at }
    where
      at : (ctx : TraceContext V M C P) → Reach put ctx (reuse_or_spawn put registry d ctx).1
      at ctx = elim (Option-cases (find_mut (like d) ctx.agents)) [
        | inl e ↦
            rw (e, reuse_or_spawn) (new_agent-Reach d ctx (find_mut-eq-none (like d) ctx.agents e))
        | inr (place, e) ↦
            rw (e, reuse_or_spawn)
              (bind-Reach (rename put place d.name) (λ _. pure d.name) ctx
                (rw (rename, call_put, from_result-state)
                  (Reach-method put ctx place d.name
                    (put.rename_agent d.name place.item.put ctx.claims)
                    (find_mut_lem _ ctx.agents place e).0
                    (laws.at_rename d.name place.item.put ctx.claims)))
                λ _. Follows-pure d.name)
      ]

  pub spawn_agents-Follows :
      (ds : List AgentDescriptor) → Follows put (spawn_agents put registry ds)
  unfolding spawn_agents
  spawn_agents-Follows [] = search follows_rules
  spawn_agents-Follows (d ∷ ds) =
      Follows-bind (reuse_or_spawn put registry d) _ (reuse_or_spawn-Follows d) λ name.
        Follows-bind (gets (λ ctx. ctx.deterministic)) _ (Follows-gets _) λ deterministic.
          Follows-bind (if deterministic then make_deterministic put name else pure tt) _
            (Follows-if deterministic _ _ (make_deterministic-Follows laws name) (Follows-pure tt))
            λ _. spawn_agents-Follows ds
