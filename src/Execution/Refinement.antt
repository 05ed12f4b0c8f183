-- ===== src/Execution/Refinement.antt =====
-- puffin/src/trace.rs: the actions and the execution of a trace as changes of the context.
use tlspuffin.Base.{ℕ, zero, suc, refl, List, [], ◌∷◌, Option}
use tlspuffin.Agent.{AgentName}
use tlspuffin.Algebra.Term.{Term}
use tlspuffin.Trace.Defs.{
  Action, input, output, Step, Trace, of_parts, Traces, no_traces, one_more, descriptors,
}
use tlspuffin.Trace.Context.{Knowledge}
use tlspuffin.Execution.Monad.{pure}
use tlspuffin.Execution.Put.{MessageResult, Put, ProtocolBehavior}
use tlspuffin.Execution.Context.{TraceContext, PutRegistry, add_knowledge}
use tlspuffin.Execution.Actions.{
  add_all, learn, drain, run_input, run_output, run_action, new_output_step, run_step, run_steps,
  execute, execute_prior,
}
use tlspuffin.Execution.Contract.{IsPut, IsRegistry}
use tlspuffin.Execution.Effects.{
  Reach, learned, Reach-one, Follows, follows_rules, Follows-pure, Follows-bind, Follows-stop,
  Follows-Option,
}
use tlspuffin.Execution.AgentLaws.{
  add_to_inbound-Follows, next_state-Follows, take_message_from_outbound-Follows,
  reset_agents-Follows,
}
use tlspuffin.Execution.SpawnLaws.{spawn_agents-Follows}

module _ {V M C Msg Opaque P : Type 0} (put : Put P C Msg Opaque) where
  add_knowledge-Follows : (k : Knowledge V M) → Follows put (add_knowledge k)
  unfolding add_knowledge
  add_knowledge-Follows k = record { at = λ ctx. Reach-one put (learned k refl) }

  add_all-Follows :
      (name : AgentName) (matcher : Option M) (variables : List V)
      → Follows put (add_all name matcher variables)
  unfolding add_all
  add_all-Follows name matcher [] = Follows-pure tt
  add_all-Follows name matcher (v ∷ vs) =
      Follows-bind (add_knowledge _) _ (add_knowledge-Follows _)
        λ _. add_all-Follows name matcher vs

module _ {V M C Msg Opaque P : Type 0} (pb : ProtocolBehavior V M C Msg Opaque)
    {put : Put P C Msg Opaque} (laws : IsPut put) where
  learn-Follows : (name : AgentName) (m : MessageResult Msg Opaque) → Follows put (learn pb name m)
  unfolding learn
  learn-Follows name m = search (follows_rules, add_all-Follows put)

  drain-Follows : (fuel : ℕ) (name : AgentName) → Follows put (drain pb put fuel name)
  unfolding drain
  drain-Follows zero name = Follows-stop _
  drain-Follows (suc fuel) name =
      Follows-bind _ _ (take_message_from_outbound-Follows laws name) λ taken.
        Follows-Option taken _ _ (Follows-pure tt)
          λ m. Follows-bind _ _ (learn-Follows name m) λ _. drain-Follows fuel name

  run_output-Follows : (fuel : ℕ) (step : Step V M) → Follows put (run_output pb put fuel step)
  unfolding run_output
  run_output-Follows fuel step = search (follows_rules, next_state-Follows laws, drain-Follows)

  run_input-Follows :
      (recipe : Term V M) (step : Step V M) → Follows put (run_input pb put recipe step)
  unfolding run_input
  run_input-Follows recipe step =
      search (follows_rules, next_state-Follows laws, add_to_inbound-Follows laws)

  run_action-Follows :
      (fuel : ℕ) (action : Action V M) (step : Step V M)
      → Follows put (run_action pb put fuel action step)
  unfolding run_action
  run_action-Follows fuel (input recipe) step = run_input-Follows recipe step
  run_action-Follows fuel output step = run_output-Follows fuel step

  run_step-Follows : (fuel : ℕ) (step : Step V M) → Follows put (run_step pb put fuel step)
  unfolding run_step
  run_step-Follows fuel step =
      Follows-bind _ _ (run_action-Follows fuel step.action step) λ _. after step.action
    where
      after :
          (action : Action V M)
          → Follows {V = V} {M = M} put (elim action [
            | input recipe ↦ run_action pb put fuel output (new_output_step step.agent)
            | output ↦ pure tt
          ])
      after (input recipe) = run_action-Follows fuel output (new_output_step step.agent)
      after output = Follows-pure tt

  run_steps-Follows :
      (fuel : ℕ) (steps : List (Step V M)) → Follows put (run_steps pb put fuel steps)
  unfolding run_steps
  run_steps-Follows fuel [] = Follows-pure tt
  run_steps-Follows fuel (s ∷ ss) =
      Follows-bind _ _ (run_step-Follows fuel s) λ _. run_steps-Follows fuel ss

module _ {V M C Msg Opaque P : Type 0} (pb : ProtocolBehavior V M C Msg Opaque)
    {put : Put P C Msg Opaque} (laws : IsPut put) (registry : PutRegistry V M C P)
    (made : IsRegistry put registry) (fuel : ℕ) where
  mutual
    unfolding execute execute_prior

    execute-Follows : (trace : Trace V M) → Follows put (execute pb put registry fuel trace)
    execute-Follows (of_parts ds ss ps) = Follows-bind _ _ (execute_prior-Follows ps) λ _.
        Follows-bind _ _ (spawn_agents-Follows laws registry made ds)
          λ _. Follows-bind _ _ (run_steps-Follows pb laws fuel ss) λ _. search follows_rules

    execute_prior-Follows :
        (traces : Traces V M) → Follows put (execute_prior pb put registry fuel traces)
    execute_prior-Follows no_traces = Follows-pure tt
    execute_prior-Follows (one_more t ts) =
        Follows-bind _ _ (spawn_agents-Follows laws registry made (descriptors t)) λ _.
          Follows-bind _ _ (execute-Follows t)
            λ _. Follows-bind _ _ (reset_agents-Follows laws) λ _. execute_prior-Follows ts

  -- Where PUTs and factories keep their contract, the context after the execution of a trace, also
  -- after one that fails, is reached from the first context by changes of four kinds: an item of
  -- knowledge is added, claims are added, an agent is created where none can be reused for its
  -- descriptor, or one agent is written back with the role of its PUT kept.
  pub execute-Reach :
      (trace : Trace V M) (ctx : TraceContext V M C P)
      → Reach put ctx (execute pb put registry fuel trace ctx).1
  execute-Reach trace ctx = (execute-Follows trace).at ctx
