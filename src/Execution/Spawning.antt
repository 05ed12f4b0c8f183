-- ===== src/Execution/Spawning.antt =====
-- puffin/src/trace.rs, `spawn_agents`, and puffin/src/agent.rs, `Agent::new`.
use tlspuffin.Base.{List, [], ◌∷◌, none, some, if◌then◌else◌, ◌==◌}
use tlspuffin.Agent.{AgentName, AgentDescriptor, is_reusable_with}
use tlspuffin.Trace.Evaluation.{no_factory}
use tlspuffin.Execution.Monad.{raised, gets, Exec, pure, stop, from_result, ◌>>=◌, ◌>>◌}
use tlspuffin.Execution.Put.{Put}
use tlspuffin.Execution.Context.{Agent, TraceContext, PutRegistry, find_factory, put_descriptor}
use tlspuffin.Execution.Agents.{write, find_mut, add_agent, rename}

module _ {V M C P : Type 0} (registry : PutRegistry V M C P) where
  -- `Agent::new`. The error names the factory that is missing.
  unfoldable pub create_agent : AgentDescriptor → Exec (TraceContext V M C P) (Agent P)
  create_agent descriptor ctx =
      let chosen = put_descriptor registry ctx descriptor in
      elim (find_factory registry chosen.name) [
        | none ↦ stop (raised (no_factory chosen.name)) ctx
        | some factory ↦
            let (result, claims) = factory.create ctx descriptor in
            (do
              p ← from_result result
              pure (record { name = descriptor.name; put = p; put_descriptor = chosen }))
              (record ctx { claims = claims })
      ]

  unfoldable pub new_agent : AgentDescriptor → Exec (TraceContext V M C P) AgentName
  new_agent descriptor = do a ← create_agent descriptor; add_agent a

module _ {V M C Msg Opaque P : Type 0} (put : Put P C Msg Opaque) where
  -- An agent that cannot be made deterministic is only warned about.
  unfoldable pub make_deterministic : AgentName → Exec (TraceContext V M C P) (Unit {0})
  unfolding find_mut pure
  make_deterministic name ctx = elim (find_mut (λ a. a.name == name) ctx.agents) [
    | none ↦ pure tt ctx
    | some place ↦
        let (result, p, claims) = put.set_deterministic place.item.put ctx.claims in
        pure tt
          (record ctx { agents = write place (record place.item { put = p }); claims = claims })
  ]

module _ {V M C Msg Opaque P : Type 0} (put : Put P C Msg Opaque)
    (registry : PutRegistry V M C P) where
  -- An agent that is reused is renamed; otherwise one is created.
  unfoldable pub reuse_or_spawn : AgentDescriptor → Exec (TraceContext V M C P) AgentName
  reuse_or_spawn descriptor ctx =
      elim (find_mut (λ existing. is_reusable_with (put.descriptor existing.put) descriptor)
        ctx.agents) [
          | some reusable ↦ (do rename put reusable descriptor.name; pure descriptor.name) ctx
          | none ↦ new_agent registry descriptor ctx
        ]

  unfoldable pub spawn_agents : List AgentDescriptor → Exec (TraceContext V M C P) (Unit {0})
  spawn_agents [] = pure tt
  spawn_agents (descriptor ∷ descriptors) = do
    name ← reuse_or_spawn descriptor
    deterministic ← gets (λ ctx. ctx.deterministic)
    if deterministic then make_deterministic put name else pure tt
    spawn_agents descriptors
