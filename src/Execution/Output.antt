-- ===== src/Execution/Output.antt =====
-- puffin/src/trace.rs, `OutputAction::output`: the loop over the messages of an agent.
use tlspuffin.Base.{
  ℕ, suc, ◌≡◌, refl, sym, ap, ◌∙◌, List, [], ◌∷◌, ◌++◌, map, append_assoc, append-nil, Option, none,
  some, ◌==◌, Result, ok, err,
}
use tlspuffin.Agent.{AgentName}
use tlspuffin.Trace.Context.{Knowledge}
use tlspuffin.Trace.Evaluation.{Error}
use tlspuffin.Execution.Monad.{raised, pure, from_result, ◌>>=◌, bind-ok, bind-err}
use tlspuffin.Execution.Put.{MessageResult, Put, ProtocolBehavior, create_matcher}
use tlspuffin.Execution.Context.{Agent, TraceContext, add_knowledge}
use tlspuffin.Execution.Agents.{
  Place, write, find_mut, find_agent_mut, call_put, take_message_from_outbound,
}
use tlspuffin.Execution.AgentLaws.{find_mut_lem, find_mut-write}
use tlspuffin.Execution.Actions.{add_all, message_knowledge, learn, drain}

abbrev pub known : {V M : Type 0} → AgentName → Option M → V → Knowledge V M
known name matcher v = record { agent_name = name; matcher = matcher; data_value = v }

module _ {V M C P : Type 0} where
  abbrev pub with_knowledge : List (Knowledge V M) → TraceContext V M C P → TraceContext V M C P
  with_knowledge ks ctx = record ctx { knowledge = ctx.knowledge ++ ks }

  pub with_knowledge-append :
      (ks ls : List (Knowledge V M)) (ctx : TraceContext V M C P)
      → with_knowledge ls (with_knowledge ks ctx) ≡ with_knowledge (ks ++ ls) ctx
  with_knowledge-append ks ls ctx =
      ap (λ all. record ctx { knowledge = all }) (append_assoc ctx.knowledge ks ls)

  add_all_lem :
      (name : AgentName) (matcher : Option M) (vs : List V) (ctx : TraceContext V M C P)
      → add_all name matcher vs ctx ≡ (ok tt, with_knowledge (map (known name matcher) vs) ctx)
  unfolding add_all add_knowledge ◌>>=◌
  add_all_lem name matcher [] ctx =
      ap (λ all. (ok tt, record ctx { knowledge = all })) (sym (append-nil ctx.knowledge))
  add_all_lem name matcher (v ∷ vs) ctx =
      add_all_lem name matcher vs (with_knowledge (known name matcher v ∷ []) ctx)
      ∙ ap (λ c. (ok tt, c))
          (with_knowledge-append (known name matcher v ∷ []) (map (known name matcher) vs) ctx)

module _ {V M C Msg Opaque : Type 0} (pb : ProtocolBehavior V M C Msg Opaque) where
  -- What a message teaches: its structured variables with its matcher, and then the opaque ones.
  abbrev pub learned_from : AgentName → MessageResult Msg Opaque → List V → List (Knowledge V M)
  learned_from name m opaque =
      map (known name (create_matcher pb m)) (message_knowledge pb m.message)
      ++ map (known name none) opaque

module _ {V M C Msg Opaque P : Type 0} (pb : ProtocolBehavior V M C Msg Opaque) where
  learn_lem :
      (name : AgentName) (m : MessageResult Msg Opaque) (opaque : List V)
      (ctx : TraceContext V M C P)
      → pb.extract_opaque m.opaque_message ≡ ok opaque
      → learn pb name m ctx ≡ (ok tt, with_knowledge (learned_from pb name m opaque) ctx)
  unfolding learn from_result
  learn_lem name m opaque ctx e =
      let first = map (known name (create_matcher pb m)) (message_knowledge pb m.message) in
      bind-ok (from_result (pb.extract_opaque m.opaque_message)) _ ctx (rw (e, from_result) refl)
      ∙ bind-ok (add_all name (create_matcher pb m) (message_knowledge pb m.message)) _ ctx
          (add_all_lem _ _ _ ctx)
      ∙ add_all_lem name none opaque (with_knowledge first ctx)
      ∙ ap (λ c. (ok tt, c)) (with_knowledge-append first (map (known name none) opaque) ctx)

module _ {V M C Msg Opaque P : Type 0} (put : Put P C Msg Opaque) where
  -- The context in which the agent at a place has another state of its PUT.
  abbrev pub moved : Place (Agent P) → P → TraceContext V M C P → TraceContext V M C P
  moved place p ctx = record ctx { agents = write place (record place.item { put = p }) }

  -- The place of the agent that a name stands for.
  abbrev pub Serves : AgentName → TraceContext V M C P → Place (Agent P) → Type 0
  Serves name ctx place = find_mut (λ a. a.name == name) ctx.agents ≡ some place

  pub Serves-moved :
      (name : AgentName) (ctx : TraceContext V M C P) (place : Place (Agent P)) (p : P)
      → Serves name ctx place
      → Serves name (moved place p ctx) (record place { item = record place.item { put = p } })
  Serves-moved name ctx place p h =
      find_mut-write (λ a. a.name == name) ctx.agents place (record place.item { put = p }) h
        (find_mut_lem (λ a. a.name == name) ctx.agents place h).1

  take_message_lem :
      (name : AgentName) (ctx : TraceContext V M C P) (place : Place (Agent P))
      {r : Result Error (Option (MessageResult Msg Opaque))} {p : P}
      → Serves name ctx place
      → put.take_message_from_outbound place.item.put ≡ (r, p)
      → take_message_from_outbound put name ctx ≡ from_result r (moved place p ctx)
  unfolding take_message_from_outbound find_agent_mut call_put
  take_message_lem name ctx place {r} {p} h e =
      let found : find_agent_mut name ctx ≡ (ok place, ctx) = rw (h, find_agent_mut) refl in
      bind-ok (find_agent_mut name) _ ctx found
      ∙ ap
          (λ (out : Result Error (Option (MessageResult Msg Opaque)) × P).
            from_result out.0 (moved place out.1 ctx))
          e

module _ {V M C Msg Opaque P : Type 0} (pb : ProtocolBehavior V M C Msg Opaque)
    (put : Put P C Msg Opaque) (fuel : ℕ) (name : AgentName) (ctx : TraceContext V M C P)
    (place : Place (Agent P)) (p : P) (here : Serves put name ctx place) where
  -- The rounds of the loop: it ends, it fails, or it learns from a message and goes on.
  pub drain-quiet :
      put.take_message_from_outbound place.item.put ≡ (ok none, p)
      → drain pb put (suc fuel) name ctx ≡ (ok tt, moved put place p ctx)
  unfolding drain from_result pure
  drain-quiet e =
      bind-ok (take_message_from_outbound put name) _ ctx
        (take_message_lem put name ctx place here e)

  pub drain-failed :
      {error : Error}
      → put.take_message_from_outbound place.item.put ≡ (err error, p)
      → drain pb put (suc fuel) name ctx ≡ (err (raised error), moved put place p ctx)
  unfolding drain from_result
  drain-failed e =
      bind-err (take_message_from_outbound put name) _ ctx
        (take_message_lem put name ctx place here e)

  pub drain-unreadable :
      (m : MessageResult Msg Opaque) {error : Error}
      → put.take_message_from_outbound place.item.put ≡ (ok (some m), p)
      → pb.extract_opaque m.opaque_message ≡ err error
      → drain pb put (suc fuel) name ctx ≡ (err (raised error), moved put place p ctx)
  unfolding drain from_result learn
  drain-unreadable m e k =
      bind-ok (take_message_from_outbound put name) _ ctx
        (take_message_lem put name ctx place here e)
      ∙ bind-err (learn pb name m) _ (moved put place p ctx) (
          bind-err (from_result (pb.extract_opaque m.opaque_message)) _ (moved put place p ctx)
            (rw (k, from_result) refl))

  pub drain-next :
      (m : MessageResult Msg Opaque) (opaque : List V)
      → put.take_message_from_outbound place.item.put ≡ (ok (some m), p)
      → pb.extract_opaque m.opaque_message ≡ ok opaque
      → drain pb put (suc fuel) name ctx
        ≡ drain pb put fuel name
            (with_knowledge (learned_from pb name m opaque) (moved put place p ctx))
  unfolding drain from_result
  drain-next m opaque e k =
      bind-ok (take_message_from_outbound put name) _ ctx
        (take_message_lem put name ctx place here e)
      ∙ bind-ok (learn pb name m) _ (moved put place p ctx)
          (learn_lem pb name m opaque (moved put place p ctx) k)
