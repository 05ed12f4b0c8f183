-- ===== src/Execution/Termination.antt =====
-- puffin/src/trace.rs: the execution of a trace ends, when each agent has a bounded number of messages to
-- give out.
use tlspuffin.Base.{
  ℕ, zero, suc, ◌+◌, ◌-◌, ◌≤◌, ◌<◌, ◌≡◌, ◌≢◌, refl, sym, ap, ◌∙◌, List, [], ◌∷◌, none, err, inl,
  inr, arith, Option-cases, ◌==◌,
}
use tlspuffin.Agent.{AgentName}
use tlspuffin.Algebra.Term.{Term}
use tlspuffin.Trace.Defs.{
  Action, input, output, Step, Trace, of_parts, Traces, no_traces, one_more, descriptors,
}
use tlspuffin.Trace.Evaluation.{agent}
use tlspuffin.Execution.Monad.{
  raised, out_of_fuel, Exec, pure, stop, from_result, gets, ◌>>=◌, ◌>>◌, bind-err,
}
use tlspuffin.Execution.Put.{Put, ProtocolBehavior}
use tlspuffin.Execution.Context.{Agent, TraceContext, PutRegistry, verify_security_violations}
use tlspuffin.Execution.Agents.{
  Place, find_mut, find_agent_mut, next_state, take_message_from_outbound, reset_agents,
}
use tlspuffin.Execution.Spawning.{spawn_agents}
use tlspuffin.Execution.Actions.{
  drain, run_input, run_output, run_action, new_output_step, run_step, run_steps, execute,
  execute_prior,
}
use tlspuffin.Execution.Drain.{IsBounded, drain_terminates}
use tlspuffin.Execution.Settling.{
  Runs, Settles, Terminates, Terminates-Runs, Terminates-bind, Runs-pure, runs_rules,
}
use tlspuffin.Execution.Output.{Serves}
use tlspuffin.Execution.Totality.{
  next_state-Runs, add_to_inbound-Runs, reset_agents-Runs, spawn_agents-Runs,
}

module _ {V M C Msg Opaque P : Type 0} (pb : ProtocolBehavior V M C Msg Opaque)
    (put : Put P C Msg Opaque) (pending : P → ℕ) (bounded : IsBounded pb put pending) where
  drain-stays :
      (extra fuel : ℕ) (name : AgentName) (ctx : TraceContext V M C P) (place : Place (Agent P))
      → Serves put name ctx place
      → pending place.item.put < fuel
      → drain pb put (extra + fuel) name ctx ≡ drain pb put fuel name ctx
  drain-stays zero fuel name ctx place h room = ap (λ n. drain pb put n name ctx) (omega arith)
  drain-stays (suc extra) fuel name ctx place h room =
      let moved_suc : suc extra + fuel ≡ suc (extra + fuel) = omega arith in
      ap (λ n. drain pb put n name ctx) moved_suc
      ∙ (drain_terminates pb put pending bounded (extra + fuel) name ctx place h (omega arith)).1
      ∙ drain-stays extra fuel name ctx place h room

  -- Without the agent, the first round fails.
  drain-missing :
      (fuel : ℕ) (name : AgentName) (ctx : TraceContext V M C P)
      → find_mut (λ a. a.name == name) ctx.agents ≡ none
      → drain pb put (suc fuel) name ctx ≡ (err (raised (agent name)), ctx)
  unfolding drain take_message_from_outbound find_agent_mut stop
  drain-missing fuel name ctx e =
      let lost : find_agent_mut name ctx ≡ (err (raised (agent name)), ctx) =
        rw (e, find_agent_mut) refl in
      bind-err (take_message_from_outbound put name) _ ctx
        (bind-err (find_agent_mut name) _ ctx lost)

  drain-Terminates : (name : AgentName) → Terminates λ n. drain {V = V} {M = M} pb put n name
  drain-Terminates name = record { at = at }
    where
      at : (ctx : TraceContext V M C P) → Settles (λ n. drain pb put n name) ctx
      at ctx = elim (Option-cases (find_mut (λ a. a.name == name) ctx.agents)) [
        | inl e ↦ record {
          enough = 1;
          ends = λ stuck. cc (drain-missing 0 name ctx e);
          stays = λ n le.
              let one_at_least : n ≡ suc (n - 1) = omega (arith, le) in
              ap (λ k. drain pb put k name ctx) one_at_least
              ∙ drain-missing (n - 1) name ctx e
              ∙ sym (drain-missing 0 name ctx e);
        }
        | inr (place, e) ↦
            let fuel = suc (pending place.item.put) in
            record {
              enough = fuel;
              ends =
                  (drain_terminates pb put pending bounded fuel name ctx place e (omega arith)).0;
              stays = λ n le.
                  let more : n ≡ (n - fuel) + fuel = omega (arith, le) in
                  ap (λ k. drain pb put k name ctx) more
                  ∙ drain-stays (n - fuel) fuel name ctx place e (omega arith);
            }
      ]

  run_output-Terminates : (step : Step V M) → Terminates λ n. run_output pb put n step
  unfolding run_output
  run_output-Terminates step =
      Terminates-bind (λ n. next_state put step.agent) (λ n u. drain pb put n step.agent)
        (Terminates-Runs _ (next_state-Runs put step.agent)) λ u. drain-Terminates step.agent

  run_input-Runs : (recipe : Term V M) (step : Step V M) → Runs (run_input pb put recipe step)
  unfolding run_input
  run_input-Runs recipe step = search (runs_rules, next_state-Runs put, add_to_inbound-Runs put)

  run_action-Terminates :
      (action : Action V M) (step : Step V M) → Terminates λ n. run_action pb put n action step
  unfolding run_action
  run_action-Terminates (input recipe) step = Terminates-Runs _ (run_input-Runs recipe step)
  run_action-Terminates output step = run_output-Terminates step

  run_step-Terminates : (step : Step V M) → Terminates λ n. run_step pb put n step
  unfolding run_step
  run_step-Terminates step =
      Terminates-bind (λ n. run_action pb put n step.action step) (λ n u. after n step.action)
        (run_action-Terminates step.action step) λ u. after-Terminates step.action
    where
      after : ℕ → Action V M → Exec (TraceContext V M C P) (Unit {0})
      after n action = elim action [
        | input recipe ↦ run_action pb put n output (new_output_step step.agent)
        | output ↦ pure tt
      ]

      after-Terminates : (action : Action V M) → Terminates λ n. after n action
      after-Terminates (input recipe) = run_action-Terminates output (new_output_step step.agent)
      after-Terminates output = Terminates-Runs _ (Runs-pure tt)

  run_steps-Terminates : (steps : List (Step V M)) → Terminates λ n. run_steps pb put n steps
  unfolding run_steps
  run_steps-Terminates [] = Terminates-Runs _ (Runs-pure tt)
  run_steps-Terminates (s ∷ ss) =
      Terminates-bind (λ n. run_step pb put n s) (λ n u. run_steps pb put n ss)
        (run_step-Terminates s) λ u. run_steps-Terminates ss

module _ {V M C Msg Opaque P : Type 0} (pb : ProtocolBehavior V M C Msg Opaque)
    (put : Put P C Msg Opaque) (registry : PutRegistry V M C P) (pending : P → ℕ)
    (bounded : IsBounded pb put pending) where
  mutual
    unfolding execute execute_prior

    run-Terminates : (trace : Trace V M) → Terminates λ n. execute pb put registry n trace
    run-Terminates (of_parts ds ss ps) =
        Terminates-bind (λ n. execute_prior pb put registry n ps)
          (λ n u. spawn_agents put registry ds >> (run_steps pb put n ss >> verdict))
          (prior-Terminates ps)
          λ u.
            Terminates-bind (λ n. spawn_agents put registry ds)
              (λ n v. run_steps pb put n ss >> verdict)
              (Terminates-Runs _ (spawn_agents-Runs put registry ds))
              λ v.
                Terminates-bind (λ n. run_steps pb put n ss) (λ n w. verdict)
                  (run_steps-Terminates pb put pending bounded ss)
                  λ w. Terminates-Runs _ (search runs_rules)
      where
        verdict : Exec (TraceContext V M C P) (Unit {0})
        verdict = gets (verify_security_violations pb) >>= from_result

    prior-Terminates :
        (traces : Traces V M) → Terminates λ n. execute_prior pb put registry n traces
    prior-Terminates no_traces = Terminates-Runs _ (Runs-pure tt)
    prior-Terminates (one_more t ts) =
        Terminates-bind (λ n. spawn_agents put registry (descriptors t))
          (λ n u.
            execute pb put registry n t >> (reset_agents put >> execute_prior pb put registry n ts))
          (Terminates-Runs _ (spawn_agents-Runs put registry (descriptors t)))
          λ u.
            Terminates-bind (λ n. execute pb put registry n t)
              (λ n v. reset_agents put >> execute_prior pb put registry n ts) (run-Terminates t)
              λ v.
                Terminates-bind (λ n. reset_agents put) (λ n w. execute_prior pb put registry n ts)
                  (Terminates-Runs _ (reset_agents-Runs put)) λ w. prior-Terminates ts

  -- Where each message that is taken from a PUT lowers a bound on what it can still give out, the
  -- execution of every trace from every context ends with enough fuel, and more fuel gives the same
  -- result and context.
  pub execute_terminates :
      (trace : Trace V M) (ctx : TraceContext V M C P)
      → (enough : ℕ) × ((execute pb put registry enough trace ctx).0 ≢ err out_of_fuel)
        × ((n : ℕ)
            → enough ≤ n
            → execute pb put registry n trace ctx ≡ execute pb put registry enough trace ctx)
  execute_terminates trace ctx =
      let s = (run-Terminates trace).at ctx in (s.enough, s.ends, s.stays)
