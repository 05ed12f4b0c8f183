-- ===== src/Tests/ExecutionRuns.antt =====
-- The theorems on the execution of traces, at the echoing PUT.
use tlspuffin.Base.{
  ℕ, ◌≤◌, ◌≡◌, ◌≢◌, ◌⊎◌, refl, List, [], ◌∷◌, ◌++◌, length, none, some, ok, err, arith, ◌==◌,
}
use tlspuffin.Agent.{is_reusable_with, agent_type_eq, tls_version_eq}
use tlspuffin.Trace.Evaluation.{Error, agent, evaluate}
use tlspuffin.Execution.Monad.{
  raised, out_of_fuel, ◌>>=◌, from_result, pure, stop, gets, modify, continue,
}
use tlspuffin.Execution.Put.{create_matcher}
use tlspuffin.Execution.Context.{
  Agent, TraceContext, find_factory, put_descriptor, add_knowledge, environment,
  verify_security_violations,
}
use tlspuffin.Trace.Context.{Knowledge}
use tlspuffin.Execution.Agents.{
  Place, find_mut, find_agent_mut, find_agent, call_put, add_agent, add_to_inbound, next_state,
  take_message_from_outbound, rename, reset_each, reset_agents,
}
use tlspuffin.Execution.Spawning.{
  create_agent, new_agent, make_deterministic, reuse_or_spawn, spawn_agents,
}
use tlspuffin.Execution.Actions.{
  add_all, message_knowledge, wire_message, learn, drain, run_input, run_output, run_action,
  new_output_step, run_step, run_steps, execute,
}
use tlspuffin.Execution.Contract.{role}
use tlspuffin.Execution.Effects.{Reach}
use tlspuffin.Execution.Refinement.{execute-Reach}
use tlspuffin.Execution.History.{Extends, execute-Extends}
use tlspuffin.Execution.Roles.{HasOneEach, execute-HasOneEach}
use tlspuffin.Execution.Output.{Serves, moved, with_knowledge, learned_from}
use tlspuffin.Execution.Drain.{Emits, drain-Emits, Emits-drain}
use tlspuffin.Execution.Errors.{attack, progressed, run_input_lem}
use tlspuffin.Execution.Assignment.{assign, roster, spawn_agents-assign, spawn_agents-same_role}
use tlspuffin.Execution.Termination.{execute_terminates}
use tlspuffin.Algebra.Shape.{make_dynamic}
use tlspuffin.Tests.Fixtures.{Value}
use tlspuffin.Tests.Echo.{
  Echo, echo_put, protocol, registry, echo_put-IsPut, registry-IsRegistry, echo-IsBounded, server_0,
  client_1, server_2, ping, ping_to, session, start,
}

-- The prior trace leaves a server, which the session reuses under its own name.
session-roster :
    let (r, ctx) = execute protocol echo_put registry 5 session start in
    (r ≡ ok tt)
    × (roster echo_put ctx.agents ≡ (0, role server_0) ∷ (1, role client_1) ∷ [])
    × (length ctx.knowledge ≡ 6)
unfolding execute run_steps run_step run_action run_input run_output drain learn add_all
    add_knowledge modify spawn_agents reuse_or_spawn make_deterministic new_agent create_agent
    add_agent rename call_put find_agent_mut find_mut find_factory put_descriptor reset_agents
    reset_each add_to_inbound next_state take_message_from_outbound verify_security_violations
    evaluate environment wire_message create_matcher message_knowledge new_output_step pure stop
    gets from_result ◌>>=◌ continue is_reusable_with agent_type_eq tls_version_eq make_dynamic
session-roster = (refl, refl, refl)

execute_terminates_example :
    (enough : ℕ) × ((execute protocol echo_put registry enough session start).0 ≢ err out_of_fuel)
    × ((n : ℕ)
        → enough ≤ n
        → execute protocol echo_put registry n session start
          ≡ execute protocol echo_put registry enough session start)
execute_terminates_example =
    execute_terminates protocol echo_put registry (λ p. length p.outbound) echo-IsBounded session
      start

execute-Reach_example : Reach echo_put start (execute protocol echo_put registry 5 session start).1
execute-Reach_example =
    execute-Reach protocol echo_put-IsPut registry registry-IsRegistry 5 session start

execute-Extends_example : Extends start (execute protocol echo_put registry 5 session start).1
execute-Extends_example =
    execute-Extends protocol echo_put-IsPut registry registry-IsRegistry 5 session start

execute-HasOneEach_example :
    let agents = (execute protocol echo_put registry 5 session start).1.agents in
    HasOneEach echo_put agents × (length agents ≤ 4)
execute-HasOneEach_example =
    execute-HasOneEach protocol echo_put-IsPut registry registry-IsRegistry 5 session start
      (λ t v. omega arith)

-- A context with one agent, which has a message to give out.
abbrev busy : Agent Echo
busy = record {
  name = 0;
  put = record { made_for = server_0; inbound = []; outbound = 20 ∷ [] };
  put_descriptor = record { name = "echo"; options = record { options = [] } };
}

abbrev quiet : Echo
quiet = record { made_for = server_0; inbound = []; outbound = [] }

abbrev one_busy : TraceContext Value ℕ ℕ Echo
one_busy = record start { agents = busy ∷ [] }

abbrev busy_place : Place (Agent Echo)
busy_place = record { before = []; item = busy; after = [] }

busy_served : Serves echo_put 0 one_busy busy_place
unfolding find_mut
busy_served = refl

drain-Emits_example :
    (p : Echo) × (ks : List (Knowledge Value ℕ)) × Emits protocol echo_put 0 busy.put ks p
    × ((drain protocol echo_put 2 0 one_busy).1
        ≡ with_knowledge ks (moved echo_put busy_place p one_busy))
unfolding drain learn add_all add_knowledge modify take_message_from_outbound find_agent_mut
    find_mut call_put create_matcher message_knowledge pure from_result ◌>>=◌ continue
drain-Emits_example = drain-Emits protocol echo_put 2 0 one_busy busy_place busy_served refl

busy_emits :
    Emits protocol echo_put 0 busy.put
      (learned_from protocol 0 (record { message = some 20; opaque_message = 20 }) ((2, 20) ∷ [])
        ++ [])
      quiet
busy_emits =
    Emits.message (record { message = some 20; opaque_message = 20 }) ((2, 20) ∷ []) refl refl
      (Emits.nothing refl) refl

Emits-drain_example :
    (enough : ℕ) × ((fuel : ℕ)
      → enough ≤ fuel
      → drain protocol echo_put fuel 0 one_busy ≡ (
        ok tt,
        with_knowledge
            (learned_from protocol 0
                (record { message = some 20; opaque_message = 20 })
                ((2, 20) ∷ [])
              ++ [])
            (moved echo_put busy_place quiet one_busy),
      ))
Emits-drain_example =
    Emits-drain protocol echo_put 0 busy_emits one_busy busy_place busy_served refl

run_input_lem_example :
    ((e : Error) × (attack protocol echo_put one_busy ping ≡ err e)
      × (run_input protocol echo_put ping (ping_to 0) one_busy ≡ (err (raised e), one_busy)))
    ⊎ ((w : ℕ) × (attack protocol echo_put one_busy ping ≡ ok w)
        × (find_mut (λ a. a.name == 0) one_busy.agents ≡ none)
        × (run_input protocol echo_put ping (ping_to 0) one_busy
            ≡ (err (raised (agent 0)), one_busy)))
    ⊎ ((w : ℕ) × (place : Place (Agent Echo)) × (attack protocol echo_put one_busy ping ≡ ok w)
        × Serves echo_put 0 one_busy place
        × (run_input protocol echo_put ping (ping_to 0) one_busy
            ≡ progressed protocol echo_put (ping_to 0) place w one_busy))
run_input_lem_example = run_input_lem protocol echo_put ping (ping_to 0) one_busy

abbrev pinged : TraceContext Value ℕ ℕ Echo
pinged = (run_steps protocol echo_put 3 (ping_to 0 ∷ []) one_busy).1

abbrev after_session : TraceContext Value ℕ ℕ Echo
after_session = (execute protocol echo_put registry 5 session start).1

session_returns : execute protocol echo_put registry 5 session start ≡ (ok tt, after_session)
unfolding execute run_steps run_step run_action run_input run_output drain learn add_all
    add_knowledge modify spawn_agents reuse_or_spawn make_deterministic new_agent create_agent
    add_agent rename call_put find_agent_mut find_mut find_factory put_descriptor reset_agents
    reset_each add_to_inbound next_state take_message_from_outbound verify_security_violations
    evaluate environment wire_message create_matcher message_knowledge new_output_step pure stop
    gets from_result ◌>>=◌ continue is_reusable_with agent_type_eq tls_version_eq make_dynamic
session_returns = refl

abbrev two_spawned : TraceContext Value ℕ ℕ Echo
two_spawned = (spawn_agents echo_put registry (server_0 ∷ server_2 ∷ []) start).1

two_servers : spawn_agents echo_put registry (server_0 ∷ server_2 ∷ []) start ≡ (ok tt, two_spawned)
unfolding spawn_agents reuse_or_spawn make_deterministic new_agent create_agent add_agent rename
    call_put find_mut find_factory put_descriptor pure stop gets from_result ◌>>=◌ continue
    is_reusable_with agent_type_eq tls_version_eq
two_servers = refl

spawn_agents-assign_example :
    roster echo_put two_spawned.agents ≡ assign (server_0 ∷ server_2 ∷ []) []
spawn_agents-assign_example =
    spawn_agents-assign echo_put-IsPut registry registry-IsRegistry (server_0 ∷ server_2 ∷ []) start
      two_spawned two_servers

spawn_agents-same_role_example :
    (roster echo_put two_spawned.agents ≡ (2, role server_0) ∷ [])
    × (find_agent 0 two_spawned ≡ err (agent 0))
spawn_agents-same_role_example =
    spawn_agents-same_role echo_put-IsPut registry registry-IsRegistry server_0 server_2 start
      two_spawned refl (λ e. omega arith) refl two_servers
