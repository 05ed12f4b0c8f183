-- ===== src/Execution/AgentLaws.antt =====
-- puffin/src/trace.rs and puffin/src/agent.rs: the operations on agents and their spawning, as changes of
-- the context.
use tlspuffin.Base.{
  ◌≡◌, refl, sym, ◌⊎◌, ==_iff, ap, Bool, true, false, List, [], ◌∷◌, ◌++◌, none, some, Option-cases,
  Result, ok, err, Result-cases, All, ◌==◌, inl, inr, Bool-cases, arith, append-nil, append_assoc,
}
use tlspuffin.Agent.{AgentName}
use tlspuffin.Trace.Evaluation.{Error, agent}
use tlspuffin.Execution.Monad.{raised, pure, stop, from_result, ◌>>=◌}
use tlspuffin.Execution.Put.{Put}
use tlspuffin.Execution.Context.{Agent, TraceContext}
use tlspuffin.Execution.Agents.{
  Place, write, find_mut, find_agent_mut, call_put, add_to_inbound, next_state,
  take_message_from_outbound, reset_each, reset_agents,
}
use tlspuffin.Execution.Contract.{KeepsRole, IsPut}
use tlspuffin.Execution.Effects.{updated, Reach, here, Reach-one, Reach-trans, Follows}

module _ {A : Type 0} (p : A → Bool) where
  -- A reference is to an item of the list that passes the test.
  pub find_mut_lem :
      (xs : List A) (place : Place A)
      → find_mut p xs ≡ some place
      → (xs ≡ write place place.item) × (p place.item ≡ true)
  unfolding find_mut
  find_mut_lem [] place h = cc
  find_mut_lem (x ∷ xs) place h = elim (Bool-cases (p x)) [
    | inl yes_ ↦ ground arith
    | inr no_ ↦ elim (Option-cases (find_mut p xs)) [
      | inl e ↦ ground arith
      | inr (inner, e) ↦ ground (arith, find_mut_lem xs inner e)
    ]
  ]

  pub find_mut-eq-none : (xs : List A) → find_mut p xs ≡ none → All (λ x. p x ≡ false) xs
  unfolding find_mut
  find_mut-eq-none [] h = tt
  find_mut-eq-none (x ∷ xs) h = elim (Bool-cases (p x)) [
    | inl yes_ ↦ ground arith
    | inr no_ ↦ elim (Option-cases (find_mut p xs)) [
      | inl e ↦ (no_, find_mut-eq-none xs e)
      | inr (inner, e) ↦ ground arith
    ]
  ]

  -- A reference is found again after a write that passes the test.
  pub find_mut-write :
      (xs : List A) (place : Place A) (x' : A)
      → find_mut p xs ≡ some place
      → p x' ≡ true
      → find_mut p (write place x') ≡ some (record place { item = x' })
  unfolding find_mut
  find_mut-write [] place x' h k = cc
  find_mut-write (x ∷ xs) place x' h k = elim (Bool-cases (p x)) [
    | inl yes_ ↦ ground arith
    | inr no_ ↦ elim (Option-cases (find_mut p xs)) [
      | inl e ↦ ground arith
      | inr (inner, e) ↦ ground (arith, find_mut-write xs inner x' e k)
    ]
  ]

-- A look-up by name fails with an error and changes nothing, or finds an agent of that name.
pub find_agent_mut-cases :
    {V M C P : Type 0} (name : AgentName) (ctx : TraceContext V M C P)
    → (find_agent_mut name ctx ≡ (err (raised (agent name)), ctx))
      ⊎ ((place : Place (Agent P)) × (find_agent_mut name ctx ≡ (ok place, ctx))
          × (ctx.agents ≡ write place place.item)
          × (place.item.name ≡ name))
unfolding find_agent_mut pure stop
find_agent_mut-cases name ctx =
    let named = λ (a : Agent _). a.name == name in
    elim (Option-cases (find_mut named ctx.agents)) [
      | inl e ↦ inl (rw (e, find_agent_mut) refl)
      | inr (place, e) ↦
          let (whole, same) = find_mut_lem named ctx.agents place e in
          inr (place, rw (e, find_agent_mut) refl, whole, (==_iff _ _).0 same)
    ]

pub from_result-state : {S A : Type 0} (r : Result Error A) (s : S) → (from_result r s).1 ≡ s
unfolding from_result
from_result-state (ok a) s = refl
from_result-state (err e) s = refl

module _ {V M C Msg Opaque P A : Type 0} (put : Put P C Msg Opaque) where
  -- What a call of a method on an agent writes, where the method is given a new name perhaps.
  pub Reach-method :
      (ctx : TraceContext V M C P) (place : Place (Agent P)) (new_name : AgentName)
      (result : Result Error A × P × List C)
      → ctx.agents ≡ write place place.item
      → KeepsRole put place.item.put ctx.claims result
      → let written : Agent P = record place.item { name = new_name; put = result.1 } in
        Reach put ctx (record ctx { agents = write place written; claims = result.2 })
  Reach-method ctx place new_name (r, p, claims) e keeps =
      let written : Agent P = record place.item { name = new_name; put = p } in
      Reach-one put (
        updated place written keeps.1 e keeps.0
          (ap (λ cs. record ctx { agents = write place written; claims = cs }) keeps.2))

  -- A call of a method on an agent that is looked up by its name.
  with_agent-Follows :
      (name : AgentName) (method : P → List C → Result Error A × P × List C)
      → ((p : P) (cs : List C) → KeepsRole put p cs (method p cs))
      → Follows {V = V} {M = M} put (find_agent_mut name >>= λ place. call_put place method)
  unfolding find_agent_mut call_put ◌>>=◌
  with_agent-Follows name method keeps = record { at = at }
    where
      at :
          (ctx : TraceContext V M C P)
          → Reach put ctx ((find_agent_mut name >>= λ place. call_put place method) ctx).1
      at ctx = elim (find_agent_mut-cases name ctx) [
        | inl e ↦ rw (e, ◌>>=◌) here
        | inr (place, e, whole, same) ↦
            rw (e, ◌>>=◌, from_result-state)
              (Reach-method ctx place place.item.name (method place.item.put ctx.claims) whole
                (keeps place.item.put ctx.claims))
      ]

module _ {V M C Msg Opaque P : Type 0} {put : Put P C Msg Opaque} (laws : IsPut put) where
  pub add_to_inbound-Follows :
      (name : AgentName) (message : Opaque)
      → Follows {V = V} {M = M} put (add_to_inbound put name message)
  unfolding add_to_inbound
  add_to_inbound-Follows name message =
      with_agent-Follows put name (λ p claims. (ok tt, put.add_to_inbound message p, claims))
        λ p cs. (laws.at_inbound message p, [], sym (append-nil cs))

  pub next_state-Follows : (name : AgentName) → Follows {V = V} {M = M} put (next_state put name)
  unfolding next_state
  next_state-Follows name = with_agent-Follows put name (put.progress name) (laws.at_progress name)

  pub take_message_from_outbound-Follows :
      (name : AgentName) → Follows {V = V} {M = M} put (take_message_from_outbound put name)
  unfolding take_message_from_outbound
  take_message_from_outbound-Follows name =
      with_agent-Follows put name
        (λ p claims. let (result, p') = put.take_message_from_outbound p in (result, p', claims))
        λ p cs. (laws.at_outbound p, [], sym (append-nil cs))

  -- A reset of the agents from some place on.
  reset_each-Reach :
      (ctx : TraceContext V M C P) (done left : List (Agent P)) (claims : List C)
      → let (r, agents, claims') = reset_each put left claims in
        Reach put
          (record ctx { agents = done ++ left; claims = claims })
          (record ctx { agents = done ++ agents; claims = claims' })
  unfolding reset_each
  reset_each-Reach ctx done [] claims = here
  reset_each-Reach ctx done (a ∷ left) claims =
      let (r, p, claims') = put.reset a.name a.put claims in
      let a' : Agent P = record a { put = p } in
      let first : Reach put (record ctx { agents = done ++ a ∷ left; claims = claims })
          (record ctx { agents = done ++ a' ∷ left; claims = claims' }) =
        Reach-method put (record ctx { agents = done ++ a ∷ left; claims = claims })
          (record { before = done; item = a; after = left }) a.name (put.reset a.name a.put claims)
          refl (laws.at_reset a.name a.put claims) in
      elim (Result-cases r) [
        | inl (u, e) ↦
            rw (e, reset_each)
              (Reach-trans put first (
                rw
                  (
                    append_assoc done (a' ∷ []) left,
                    append_assoc done (a' ∷ []) (reset_each put left claims').1,
                  )
                  at (reset_each-Reach ctx (done ++ a' ∷ []) left claims')))
        | inr (error, e) ↦ rw (e, reset_each) first
      ]

  pub reset_agents-Follows : Follows {V = V} {M = M} put (reset_agents put)
  unfolding reset_agents
  reset_agents-Follows = record {
    at = λ ctx.
        let (r, agents, claims) = reset_each put ctx.agents ctx.claims in
        rw from_result-state (reset_each-Reach ctx [] ctx.agents ctx.claims);
  }
