-- ===== src/Execution/Errors.antt =====
-- puffin/src/trace.rs: the errors of an input step, of a list of steps and of a trace.
use Prim.Native.String.{String}
use tlspuffin.Base.{
  ℕ, ◌≡◌, refl, sym, ap, ◌∙◌, List, [], ◌∷◌, ◌++◌, Option, none, some, Result, ok, err, bind,
  Result-cases, inl, inr, ◌⊎◌, ◌==◌, Option-cases,
}
use tlspuffin.Algebra.Term.{Term}
use tlspuffin.Trace.Defs.{Step, Trace, of_parts}
use tlspuffin.Trace.Evaluation.{Error, agent, evaluate, security_claim}
use tlspuffin.Execution.Monad.{
  Stop, raised, Exec, pure, stop, from_result, gets, ◌>>=◌, ◌>>◌, bind-err, bind-ok, >>=-eq-ok,
}
use tlspuffin.Execution.Put.{Put, ProtocolBehavior}
use tlspuffin.Execution.Context.{
  Agent, TraceContext, PutRegistry, environment, verify_security_violations,
}
use tlspuffin.Execution.Agents.{
  Place, write, find_mut, find_agent_mut, call_put, add_to_inbound, next_state,
}
use tlspuffin.Execution.Spawning.{spawn_agents}
use tlspuffin.Execution.Actions.{
  wire_message, run_input, run_step, run_steps, execute, execute_prior,
}
use tlspuffin.Execution.Output.{moved, Serves, Serves-moved}

module _ {V M C Msg Opaque P : Type 0} (pb : ProtocolBehavior V M C Msg Opaque)
    (put : Put P C Msg Opaque) where
  -- The message that a recipe comes to in a context.
  abbrev pub attack : TraceContext V M C P → Term V M → Result Error Opaque
  attack ctx recipe =
      bind (evaluate pb.type_id pb.matcher (environment pb ctx) recipe) (wire_message pb)

  -- What is left of an input once its message is known.
  abbrev delivery : Opaque → Step V M → Exec (TraceContext V M C P) (Unit {0})
  delivery w step = add_to_inbound put step.agent w >> next_state put step.agent

  run_input-attack :
      (recipe : Term V M) (step : Step V M) (ctx : TraceContext V M C P)
      → run_input pb put recipe step ctx
        ≡ (from_result (attack ctx recipe) >>= λ w. delivery w step) ctx
  unfolding run_input gets from_result ◌>>=◌
  run_input-attack recipe step ctx =
      split (evaluate pb.type_id pb.matcher (environment pb ctx) recipe) refl
    where
      split :
          (r : Result Error V)
          → evaluate pb.type_id pb.matcher (environment pb ctx) recipe ≡ r
          → run_input pb put recipe step ctx
            ≡ (from_result (attack ctx recipe) >>= λ w. delivery w step) ctx
      split (ok v) e = rw (e, run_input) refl
      split (err error) e = rw (e, run_input) refl

  attack_fails :
      (recipe : Term V M) (step : Step V M) (ctx : TraceContext V M C P) (error : Error)
      → attack ctx recipe ≡ err error
      → run_input pb put recipe step ctx ≡ (err (raised error), ctx)
  unfolding from_result
  attack_fails recipe step ctx error e =
      run_input-attack recipe step ctx
      ∙ bind-err (from_result (attack ctx recipe)) _ ctx (rw (e, from_result) refl)

  agent_missing :
      (recipe : Term V M) (step : Step V M) (ctx : TraceContext V M C P) (w : Opaque)
      → attack ctx recipe ≡ ok w
      → find_mut (λ a. a.name == step.agent) ctx.agents ≡ none
      → run_input pb put recipe step ctx ≡ (err (raised (agent step.agent)), ctx)
  unfolding from_result find_agent_mut stop add_to_inbound
  agent_missing recipe step ctx w e lost =
      let failed : find_agent_mut step.agent ctx ≡ (err (raised (agent step.agent)), ctx) =
        rw (lost, find_agent_mut) refl in
      run_input-attack recipe step ctx
      ∙ bind-ok (from_result (attack ctx recipe)) _ ctx (rw (e, from_result) refl)
      ∙ bind-err (add_to_inbound put step.agent w) _ ctx
          (bind-err (find_agent_mut step.agent) _ ctx failed)

  -- The PUT makes progress on its state with the message added.
  abbrev pub progressed :
      Step V M
      → Place (Agent P)
      → Opaque
      → TraceContext V M C P
      → Result Stop (Unit {0}) × TraceContext V M C P
  progressed step place w ctx =
      let (r, p, claims) =
        put.progress step.agent (put.add_to_inbound w place.item.put) ctx.claims in
      from_result r
        (record ctx { agents = write place (record place.item { put = p }); claims = claims })

  delivered :
      (recipe : Term V M) (step : Step V M) (ctx : TraceContext V M C P) (w : Opaque)
      (place : Place (Agent P))
      → attack ctx recipe ≡ ok w
      → Serves put step.agent ctx place
      → run_input pb put recipe step ctx ≡ progressed step place w ctx
  unfolding from_result find_agent_mut pure add_to_inbound next_state call_put
  delivered recipe step ctx w place e found =
      let p = put.add_to_inbound w place.item.put in
      let place' : Place (Agent P) = record place { item = record place.item { put = p } } in
      let ctx' : TraceContext V M C P = moved put place p ctx in
      let first : find_agent_mut step.agent ctx ≡ (ok place, ctx) =
        rw (found, find_agent_mut) refl in
      let second : find_agent_mut step.agent ctx' ≡ (ok place', ctx') =
        rw (Serves-moved put step.agent ctx place p found, find_agent_mut) refl in
      run_input-attack recipe step ctx
      ∙ bind-ok (from_result (attack ctx recipe)) _ ctx (rw (e, from_result) refl)
      ∙ bind-ok (add_to_inbound put step.agent w) _ ctx
          (bind-ok (find_agent_mut step.agent) _ ctx first)
      ∙ bind-ok (find_agent_mut step.agent) _ ctx' second

  -- An input step ends in one of three ways: the recipe does not come to a message, and the step
  -- fails with that error and the context as it was; it does, and no agent has the name, and the
  -- step fails with the error of the agent and the context as it was; or the message is added to
  -- the first agent of the name, and its PUT makes progress on it once, whose result is that of the
  -- step.
  pub run_input_lem :
      (recipe : Term V M) (step : Step V M) (ctx : TraceContext V M C P)
      → ((e : Error) × (attack ctx recipe ≡ err e)
          × (run_input pb put recipe step ctx ≡ (err (raised e), ctx)))
        ⊎ ((w : Opaque) × (attack ctx recipe ≡ ok w)
            × (find_mut (λ a. a.name == step.agent) ctx.agents ≡ none)
            × (run_input pb put recipe step ctx ≡ (err (raised (agent step.agent)), ctx)))
        ⊎ ((w : Opaque) × (place : Place (Agent P)) × (attack ctx recipe ≡ ok w)
            × Serves put step.agent ctx place
            × (run_input pb put recipe step ctx ≡ progressed step place w ctx))
  run_input_lem recipe step ctx = elim (Result-cases (attack ctx recipe)) [
    | inr (error, e) ↦ inl (error, e, attack_fails recipe step ctx error e)
    | inl (w, e) ↦ elim (Option-cases (find_mut (λ a. a.name == step.agent) ctx.agents)) [
      | inl lost ↦ inr (inl (w, e, lost, agent_missing recipe step ctx w e lost))
      | inr (place, found) ↦
          inr (inr (w, place, e, found, delivered recipe step ctx w place e found))
    ]
  ]

module _ {V M C Msg Opaque P : Type 0} (pb : ProtocolBehavior V M C Msg Opaque)
    (put : Put P C Msg Opaque) (fuel : ℕ) where
  run_steps-append :
      (before : List (Step V M)) (rest : List (Step V M)) (ctx ctx' : TraceContext V M C P)
      → run_steps pb put fuel before ctx ≡ (ok tt, ctx')
      → run_steps pb put fuel (before ++ rest) ctx ≡ run_steps pb put fuel rest ctx'
  unfolding run_steps pure
  run_steps-append [] rest ctx ctx' e = ap (λ out. run_steps pb put fuel rest out.1) e
  run_steps-append (s ∷ before) rest ctx ctx' e =
      let (u, mid, first, later) =
        >>=-eq-ok (run_step pb put fuel s) (λ _. run_steps pb put fuel before) ctx e in
      bind-ok (run_step pb put fuel s) _ ctx first ∙ run_steps-append before rest mid ctx' later

  -- If some steps return and the next one fails, the whole list of steps fails with that error and
  -- leaves the context of the failed step, whatever steps follow.
  pub run_steps_stop :
      (before : List (Step V M)) (s : Step V M) (rest : List (Step V M))
      (ctx mid last : TraceContext V M C P) (e : Stop)
      → run_steps pb put fuel before ctx ≡ (ok tt, mid)
      → run_step pb put fuel s mid ≡ (err e, last)
      → run_steps pb put fuel (before ++ s ∷ rest) ctx ≡ (err e, last)
  unfolding run_steps
  run_steps_stop before s rest ctx mid last e done failed =
      run_steps-append before (s ∷ rest) ctx mid done
      ∙ bind-err (run_step pb put fuel s) _ mid failed

  module _ (registry : PutRegistry V M C P) where
    verdict-eq-ok :
        (ctx ctx' : TraceContext V M C P)
        → (gets (verify_security_violations pb) >>= from_result) ctx ≡ (ok tt, ctx')
        → pb.check_violation ctx'.claims ≡ none
    unfolding verify_security_violations gets from_result ◌>>=◌
    verdict-eq-ok ctx ctx' e = split (pb.check_violation ctx.claims) refl e
      where
        split :
            (o : Option String)
            → pb.check_violation ctx.claims ≡ o
            → (from_result (elim o [ some msg ↦ err (security_claim msg) | none ↦ ok tt ]) ctx)
              ≡ (ok tt, ctx')
            → pb.check_violation ctx'.claims ≡ none
        split none clean k = ap (λ out. pb.check_violation out.1.claims) (sym k) ∙ clean
        split (some msg) violated k = cc

    -- If the execution of a trace returns, the security policy finds no violation in the claims of
    -- the context that it leaves.
    pub execute_verified :
        (trace : Trace V M) (ctx ctx' : TraceContext V M C P)
        → execute pb put registry fuel trace ctx ≡ (ok tt, ctx')
        → pb.check_violation ctx'.claims ≡ none
    unfolding execute gets
    execute_verified (of_parts ds ss ps) ctx ctx' e =
        let (a, c1, p1, q1) = >>=-eq-ok (execute_prior pb put registry fuel ps) _ ctx e in
        let (b, c2, p2, q2) = >>=-eq-ok (spawn_agents put registry ds) _ c1 q1 in
        let (c, c3, p3, q3) = >>=-eq-ok (run_steps pb put fuel ss) _ c2 q2 in
        verdict-eq-ok c3 ctx' q3
