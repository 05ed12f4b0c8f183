-- ===== src/Execution/Actions.antt =====
-- puffin/src/trace.rs: the actions of a step, and the execution of a trace.
use tlspuffin.Base.{ℕ, zero, suc, true, List, [], ◌∷◌, Option, none, some, Result, ok, err}
use tlspuffin.Agent.{AgentName}
use tlspuffin.Algebra.Shape.{FnError, unknown, other}
use tlspuffin.Algebra.Term.{Term}
use tlspuffin.Trace.Defs.{
  Action, input, output, Step, Trace, of_parts, Traces, no_traces, one_more, descriptors,
}
use tlspuffin.Trace.Evaluation.{Error, fn_error, evaluate}
use tlspuffin.Execution.Monad.{Stop, out_of_fuel, Exec, gets, pure, stop, from_result, ◌>>=◌, ◌>>◌}
use tlspuffin.Execution.Put.{PutDescriptor, MessageResult, Put, ProtocolBehavior, create_matcher}
use tlspuffin.Execution.Context.{
  TraceContext, PutRegistry, new_context, set_deterministic, set_non_default_puts, add_knowledge,
  environment, verify_security_violations,
}
use tlspuffin.Execution.Agents.{
  add_to_inbound, next_state, take_message_from_outbound, reset_agents,
}
use tlspuffin.Execution.Spawning.{spawn_agents}

module _ {V M C P : Type 0} where
  -- The knowledge of one message, all with one matcher.
  unfoldable pub add_all : AgentName → Option M → List V → Exec (TraceContext V M C P) (Unit {0})
  add_all name matcher [] = pure tt
  add_all name matcher (variable ∷ variables) = do
    add_knowledge (record { agent_name = name; matcher = matcher; data_value = variable })
    add_all name matcher variables

module _ {V M C Msg Opaque : Type 0} (pb : ProtocolBehavior V M C Msg Opaque) where
  -- The variables of the structured message, of which an error is passed over.
  unfoldable pub message_knowledge : Option Msg → List V
  message_knowledge none = []
  message_knowledge (some message) = elim (pb.extract_message message) [
    | ok knowledge ↦ knowledge
    | err e ↦ []
  ]

  abbrev pub not_a_message : FnError
  not_a_message = unknown (other "Recipe is not a `Message`, `OpaqueMessage` or `MultiMessage`!")

  -- What an evaluated recipe puts on the wire: a structured message in its opaque form, or an opaque one.
  unfoldable pub wire_message : V → Result Error Opaque
  wire_message evaluated = elim (pb.as_message evaluated) [
    | some msg ↦ ok (pb.create_opaque msg)
    | none ↦ elim (pb.as_opaque_message evaluated) [
      | some opaque ↦ ok opaque
      | none ↦ err (fn_error not_a_message)
    ]
  ]

module _ {V M C Msg Opaque P : Type 0} (pb : ProtocolBehavior V M C Msg Opaque) where
  -- The body of the loop of `output`.
  unfoldable pub learn :
      AgentName → MessageResult Msg Opaque → Exec (TraceContext V M C P) (Unit {0})
  learn name m = do
    opaque_knowledge ← from_result (pb.extract_opaque m.opaque_message)
    add_all name (create_matcher pb m) (message_knowledge pb m.message)
    add_all name none opaque_knowledge

unfoldable pub new_output_step : {V M : Type 0} → AgentName → Step V M
new_output_step name = record { agent = name; action = output }

module _ {V M C Msg Opaque P : Type 0} (pb : ProtocolBehavior V M C Msg Opaque)
    (put : Put P C Msg Opaque) where
  -- The loop of `output`, on fuel: it ends when the agent has no message left.
  unfoldable pub drain : ℕ → AgentName → Exec (TraceContext V M C P) (Unit {0})
  drain zero name = stop out_of_fuel
  drain (suc left) name = do
    taken ← take_message_from_outbound put name
    elim taken [
      | none ↦ pure tt
      | some message_result ↦ (do learn pb name message_result; drain left name)
    ]

  -- `InputAction::input`
  unfoldable pub run_input : Term V M → Step V M → Exec (TraceContext V M C P) (Unit {0})
  run_input recipe step = do
    result ← gets (λ ctx. evaluate pb.type_id pb.matcher (environment pb ctx) recipe)
    evaluated ← from_result result
    message ← from_result (wire_message pb evaluated)
    add_to_inbound put step.agent message
    next_state put step.agent

module _ {V M C Msg Opaque P : Type 0} (pb : ProtocolBehavior V M C Msg Opaque)
    (put : Put P C Msg Opaque) (fuel : ℕ) where
  -- `OutputAction::output`
  unfoldable pub run_output : Step V M → Exec (TraceContext V M C P) (Unit {0})
  run_output step = do next_state put step.agent; drain pb put fuel step.agent

  unfoldable pub run_action : Action V M → Step V M → Exec (TraceContext V M C P) (Unit {0})
  unfolding run_input run_output
  run_action (input recipe) step = run_input pb put recipe step
  run_action output step = run_output step

  -- One round of the loop over the steps: after an input, an output step of the same agent.
  unfoldable pub run_step : Step V M → Exec (TraceContext V M C P) (Unit {0})
  run_step step = do
    run_action step.action step
    elim step.action [
      | input recipe ↦ run_action output (new_output_step step.agent)
      | output ↦ pure tt
    ]

  unfoldable pub run_steps : List (Step V M) → Exec (TraceContext V M C P) (Unit {0})
  run_steps [] = pure tt
  run_steps (step ∷ steps) = do run_step step; run_steps steps

module _ {V M C P : Type 0} where
  -- `none` is the panic of `unwrap`.
  unfoldable pub unwrap_context :
      Result Stop (Unit {0}) × TraceContext V M C P → Option (TraceContext V M C P)
  unwrap_context (ok done, ctx) = some ctx
  unwrap_context (err e, ctx) = none

module _ {V M C Msg Opaque P : Type 0} (pb : ProtocolBehavior V M C Msg Opaque)
    (put : Put P C Msg Opaque) (registry : PutRegistry V M C P) (fuel : ℕ) where
  unfoldable mutual
    -- `Trace::execute`, with the loop over the prior traces.
    pub execute : Trace V M → Exec (TraceContext V M C P) (Unit {0})
    execute (of_parts descriptors steps prior_traces) = do
      execute_prior prior_traces
      spawn_agents put registry descriptors
      run_steps pb put fuel steps
      verdict ← gets (verify_security_violations pb)
      from_result verdict

    pub execute_prior : Traces V M → Exec (TraceContext V M C P) (Unit {0})
    execute_prior no_traces = pure tt
    execute_prior (one_more trace traces) = do
      spawn_agents put registry (descriptors trace)
      execute trace
      reset_agents put
      execute_prior traces

  unfoldable pub execute_deterministic : Trace V M → Option (TraceContext V M C P)
  unfolding execute unwrap_context new_context set_deterministic
  execute_deterministic trace = unwrap_context (execute trace (set_deterministic true new_context))

  unfoldable pub execute_with_puts :
      Trace V M → List (AgentName × PutDescriptor) → Option (TraceContext V M C P)
  unfolding execute unwrap_context new_context set_non_default_puts
  execute_with_puts trace puts =
      unwrap_context (execute trace (set_non_default_puts puts new_context))
