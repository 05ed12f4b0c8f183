-- ===== src/Execution/Totality.antt =====
-- puffin/src/trace.rs: the methods of the context that have no loop over messages.
use tlspuffin.Base.{◌≢◌, List, [], ◌∷◌, Result, err, inl, inr, Option-cases, ◌==◌}
use tlspuffin.Agent.{AgentName, AgentDescriptor, is_reusable_with}
use tlspuffin.Trace.Evaluation.{Error}
use tlspuffin.Execution.Monad.{out_of_fuel, pure, stop, from_result}
use tlspuffin.Execution.Put.{Put}
use tlspuffin.Execution.Context.{Agent, TraceContext, PutRegistry, find_factory, put_descriptor}
use tlspuffin.Execution.Agents.{
  Place, find_mut, find_agent_mut, call_put, add_agent, add_to_inbound, next_state, rename,
  reset_agents,
}
use tlspuffin.Execution.Spawning.{
  create_agent, new_agent, make_deterministic, reuse_or_spawn, spawn_agents,
}
use tlspuffin.Execution.Settling.{
  Runs, Runs-from_result, Runs-pure, Runs-bind, Runs-gets, Runs-if, runs_rules,
}

module _ {V M C P : Type 0} where
  find_agent_mut-Runs :
      (name : AgentName) → Runs (find_agent_mut {V = V} {M = M} {C = C} {P = P} name)
  unfolding find_agent_mut pure stop
  find_agent_mut-Runs name = record { at = at }
    where
      at : (ctx : TraceContext V M C P) → (find_agent_mut name ctx).0 ≢ err out_of_fuel
      at ctx = elim (Option-cases (find_mut (λ a. a.name == name) ctx.agents)) [
        | inl e ↦ rw (e, find_agent_mut) (λ k. cc)
        | inr (place, e) ↦ rw (e, find_agent_mut) (λ k. cc)
      ]

  call_put-Runs :
      {A : Type 0} (place : Place (Agent P)) (method : P → List C → Result Error A × P × List C)
      → Runs (call_put {V = V} {M = M} place method)
  unfolding call_put
  call_put-Runs place method = record { at = λ ctx. (Runs-from_result _).at _ }

  new_agent-Runs :
      (registry : PutRegistry V M C P) (d : AgentDescriptor) → Runs (new_agent registry d)
  unfolding new_agent add_agent
  new_agent-Runs registry d = Runs-bind _ _ (record { at = at }) λ a. record { at = λ ctx k. cc }
    where
      at : (ctx : TraceContext V M C P) → (create_agent registry d ctx).0 ≢ err out_of_fuel
      at ctx = elim (Option-cases (find_factory registry (put_descriptor registry ctx d).name)) [
        | inl e ↦ unfold create_agent stop in rw (create_agent, e) (λ k. cc)
        | inr (factory, e) ↦
            unfold create_agent in
            rw (create_agent, e)
              ((Runs-bind (from_result (factory.create ctx d).0) _ (Runs-from_result _)
                  λ p. Runs-pure _).at
                _)
      ]

module _ {V M C Msg Opaque P : Type 0} (put : Put P C Msg Opaque) where
  pub next_state-Runs : (name : AgentName) → Runs (next_state {V = V} {M = M} put name)
  unfolding next_state
  next_state-Runs name = search (runs_rules, find_agent_mut-Runs, call_put-Runs)

  pub add_to_inbound-Runs :
      (name : AgentName) (message : Opaque) → Runs (add_to_inbound {V = V} {M = M} put name message)
  unfolding add_to_inbound
  add_to_inbound-Runs name message = search (runs_rules, find_agent_mut-Runs, call_put-Runs)

  pub reset_agents-Runs : Runs (reset_agents {V = V} {M = M} put)
  unfolding reset_agents
  reset_agents-Runs = record { at = λ ctx. (Runs-from_result _).at _ }

  make_deterministic-Runs : (name : AgentName) → Runs (make_deterministic {V = V} {M = M} put name)
  unfolding make_deterministic pure
  make_deterministic-Runs name = record { at = at }
    where
      at : (ctx : TraceContext V M C P) → (make_deterministic put name ctx).0 ≢ err out_of_fuel
      at ctx = elim (Option-cases (find_mut (λ a. a.name == name) ctx.agents)) [
        | inl e ↦ rw (make_deterministic, e) (λ k. cc)
        | inr (place, e) ↦ rw (make_deterministic, e) (λ k. cc)
      ]

module _ {V M C Msg Opaque P : Type 0} (put : Put P C Msg Opaque)
    (registry : PutRegistry V M C P) where
  reuse_or_spawn-Runs : (d : AgentDescriptor) → Runs (reuse_or_spawn put registry d)
  unfolding reuse_or_spawn rename
  reuse_or_spawn-Runs d = record { at = at }
    where
      at : (ctx : TraceContext V M C P) → (reuse_or_spawn put registry d ctx).0 ≢ err out_of_fuel
      at ctx =
          elim (Option-cases
            (find_mut (λ (e : Agent P). is_reusable_with (put.descriptor e.put) d) ctx.agents)) [
              | inl e ↦ rw (reuse_or_spawn, e) ((new_agent-Runs registry d).at ctx)
              | inr (place, e) ↦
                  rw (reuse_or_spawn, e)
                    ((Runs-bind (rename put place d.name) _
                        (call_put-Runs (record place { item = record place.item { name = d.name } })
                          (put.rename_agent d.name))
                        λ u. Runs-pure d.name).at
                      ctx)
            ]

  pub spawn_agents-Runs : (ds : List AgentDescriptor) → Runs (spawn_agents put registry ds)
  unfolding spawn_agents
  spawn_agents-Runs [] = Runs-pure tt
  spawn_agents-Runs (d ∷ ds) = Runs-bind _ _ (reuse_or_spawn-Runs d) λ name.
      Runs-bind _ _ (Runs-gets _) λ deterministic.
        Runs-bind _ _ (Runs-if deterministic _ _ (make_deterministic-Runs put name) (Runs-pure tt))
          λ u. spawn_agents-Runs ds
