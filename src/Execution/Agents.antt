-- ===== src/Execution/Agents.antt =====
-- puffin/src/trace.rs and puffin/src/agent.rs: the operations of the trace context on its agents.
use tlspuffin.Base.{
  Bool, true, ◌&&◌, List, [], ◌∷◌, ◌++◌, Option, none, some, ◌==◌, if◌then◌else◌, Result, ok, err,
}
use tlspuffin.Agent.{AgentName}
use tlspuffin.Trace.Evaluation.{Error, agent}
use tlspuffin.Execution.Monad.{raised, Exec, pure, stop, from_result, ◌>>=◌}
use tlspuffin.Execution.Put.{MessageResult, Put}
use tlspuffin.Execution.Context.{Agent, TraceContext}

-- A mutable reference to an item of a list: the item, and what stands around it.
pub record Place (A : Type 0) : Type 0 where
  pub before : List A
  pub item : A
  pub after : List A

module _ {A : Type 0} where
  -- The list once a value is written to the place.
  abbrev pub write : Place A → A → List A
  write place a = place.before ++ a ∷ place.after

  -- `iter_mut().find(p)`
  unfoldable pub find_mut : (A → Bool) → List A → Option (Place A)
  find_mut p [] = none
  find_mut p (x ∷ xs) =
      let rest = find_mut p xs in
      if p x then some (record { before = []; item = x; after = xs }) else elim rest [
        | none ↦ none
        | some place ↦ some (record place { before = x ∷ place.before })
      ]

module _ {V M C P : Type 0} where
  unfoldable pub find_agent_mut : AgentName → Exec (TraceContext V M C P) (Place (Agent P))
  unfolding find_mut stop pure
  find_agent_mut name ctx = elim (find_mut (λ a. a.name == name) ctx.agents) [
    | some place ↦ pure place ctx
    | none ↦ stop (raised (agent name)) ctx
  ]

  unfoldable pub find_agent : AgentName → TraceContext V M C P → Result Error (Agent P)
  unfolding find_mut
  find_agent name ctx = elim (find_mut (λ a. a.name == name) ctx.agents) [
    | some place ↦ ok place.item
    | none ↦ err (agent name)
  ]

  -- A method of the PUT of an agent, called through a reference to the agent.
  unfoldable pub call_put :
      {A : Type 0}
      → Place (Agent P)
      → (P → List C → Result Error A × P × List C)
      → Exec (TraceContext V M C P) A
  unfolding from_result
  call_put place method ctx =
      let (result, put, claims) = method place.item.put ctx.claims in
      from_result result
        (record ctx { agents = write place (record place.item { put = put }); claims = claims })

  unfoldable pub add_agent : Agent P → Exec (TraceContext V M C P) AgentName
  unfolding pure
  add_agent a ctx = pure a.name (record ctx { agents = ctx.agents ++ a ∷ [] })

module _ {C Msg Opaque P : Type 0} (put : Put P C Msg Opaque) where
  -- The loop of `reset_agents`, over the agents that are left. The first error ends it.
  unfoldable pub reset_each :
      List (Agent P) → List C → Result Error (Unit {0}) × List (Agent P) × List C
  reset_each [] claims = (ok tt, [], claims)
  reset_each (a ∷ as_left) claims =
      let (result, p, claims') = put.reset a.name a.put claims in
      let (rest, agents, claims'') = reset_each as_left claims' in
      elim result [
        | ok done ↦ (rest, (record a { put = p }) ∷ agents, claims'')
        | err e ↦ (err e, (record a { put = p }) ∷ as_left, claims')
      ]

  unfoldable pub all_successful : List (Agent P) → Bool
  all_successful [] = true
  all_successful (a ∷ rest) = put.is_state_successful a.put && all_successful rest

module _ {V M C Msg Opaque P : Type 0} (put : Put P C Msg Opaque) where
  unfoldable pub add_to_inbound : AgentName → Opaque → Exec (TraceContext V M C P) (Unit {0})
  add_to_inbound name message = do
    place ← find_agent_mut name
    call_put place λ p claims. (ok tt, put.add_to_inbound message p, claims)

  unfoldable pub next_state : AgentName → Exec (TraceContext V M C P) (Unit {0})
  next_state name = do place ← find_agent_mut name; call_put place (put.progress name)

  unfoldable pub take_message_from_outbound :
      AgentName → Exec (TraceContext V M C P) (Option (MessageResult Msg Opaque))
  take_message_from_outbound name = do
    place ← find_agent_mut name
    call_put place
        λ p claims. let (result, p') = put.take_message_from_outbound p in (result, p', claims)

  -- `Agent::rename`. The name is written before the PUT is asked.
  unfoldable pub rename : Place (Agent P) → AgentName → Exec (TraceContext V M C P) (Unit {0})
  unfolding call_put
  rename place new_name =
      call_put (record place { item = record place.item { name = new_name } })
        (put.rename_agent new_name)

  unfoldable pub reset_agents : Exec (TraceContext V M C P) (Unit {0})
  unfolding reset_each from_result
  reset_agents ctx =
      let (result, agents, claims) = reset_each put ctx.agents ctx.claims in
      from_result result (record ctx { agents = agents; claims = claims })

  unfoldable pub agents_successful : TraceContext V M C P → Bool
  unfolding all_successful
  agents_successful ctx = all_successful put ctx.agents
