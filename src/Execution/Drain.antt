-- ===== src/Execution/Drain.antt =====
-- puffin/src/trace.rs, `OutputAction::output`: what an output step learns, and that its loop ends.
use tlspuffin.Base.{
  ℕ, zero, suc, ◌-◌, ◌≤◌, ◌<◌, ◌≡◌, ◌≢◌, refl, sym, ap, ◌∙◌, List, [], ◌++◌, Option, none, some,
  Result, ok, err, Result-cases, inl, inr, arith, append-nil,
}
use tlspuffin.Agent.{AgentName}
use tlspuffin.Trace.Context.{Knowledge}
use tlspuffin.Trace.Evaluation.{Error}
use tlspuffin.Execution.Monad.{out_of_fuel, stop}
use tlspuffin.Execution.Put.{MessageResult, Put, ProtocolBehavior}
use tlspuffin.Execution.Context.{Agent, TraceContext}
use tlspuffin.Execution.Agents.{Place}
use tlspuffin.Execution.Actions.{drain}
use tlspuffin.Execution.Output.{
  with_knowledge, with_knowledge-append, learned_from, moved, Serves, Serves-moved, drain-quiet,
  drain-failed, drain-unreadable, drain-next,
}

module _ {V M C Msg Opaque P : Type 0} (pb : ProtocolBehavior V M C Msg Opaque)
    (put : Put P C Msg Opaque) where
  -- What taking a message can come to.
  data Round (p : P) : Type 0 where
    quiet : (p' : P) → put.take_message_from_outbound p ≡ (ok none, p') → Round p
    failed : (p' : P) (e : Error) → put.take_message_from_outbound p ≡ (err e, p') → Round p
    unreadable :
        (p' : P) (m : MessageResult Msg Opaque) (e : Error)
        → put.take_message_from_outbound p ≡ (ok (some m), p')
        → pb.extract_opaque m.opaque_message ≡ err e
        → Round p
    readable :
        (p' : P) (m : MessageResult Msg Opaque) (opaque : List V)
        → put.take_message_from_outbound p ≡ (ok (some m), p')
        → pb.extract_opaque m.opaque_message ≡ ok opaque
        → Round p

  round : (p : P) → Round p
  round p = split (put.take_message_from_outbound p).0 refl
    where
      split :
          (r : Result Error (Option (MessageResult Msg Opaque)))
          → (put.take_message_from_outbound p).0 ≡ r
          → Round p
      split (err e) h = failed (put.take_message_from_outbound p).1 e (cc)
      split (ok none) h = quiet (put.take_message_from_outbound p).1 (cc)
      split (ok (some m)) h = elim (Result-cases (pb.extract_opaque m.opaque_message)) [
        | inl (opaque, k) ↦ readable (put.take_message_from_outbound p).1 m opaque (cc) k
        | inr (e, k) ↦ unreadable (put.take_message_from_outbound p).1 m e (cc) k
      ]

  -- The messages that a PUT gives out one after the other until it has none, with what they teach.
  pub data Emits (name : AgentName) : P → List (Knowledge V M) → P → Type 0 where
    nothing : {p p' : P} → put.take_message_from_outbound p ≡ (ok none, p') → Emits name p [] p'
    message :
        {p p' q : P} {ks all : List (Knowledge V M)} (m : MessageResult Msg Opaque)
        (opaque : List V)
        → put.take_message_from_outbound p ≡ (ok (some m), p')
        → pb.extract_opaque m.opaque_message ≡ ok opaque
        → Emits name p' ks q
        → all ≡ learned_from pb name m opaque ++ ks
        → Emits name p all q

  -- If the output loop of an agent that exists returns, its PUT gave out some messages until it had
  -- none, and the context differs in the state of that PUT and in the knowledge at its end, which
  -- is what these messages teach, in their order.
  pub drain-Emits :
      (fuel : ℕ) (name : AgentName) (ctx : TraceContext V M C P) (place : Place (Agent P))
      → Serves put name ctx place
      → (drain pb put fuel name ctx).0 ≡ ok tt
      → (p : P) × (ks : List (Knowledge V M)) × Emits name place.item.put ks p
        × ((drain pb put fuel name ctx).1 ≡ with_knowledge ks (moved put place p ctx))
  unfolding drain stop
  drain-Emits zero name ctx place h returned = cc
  drain-Emits (suc fuel) name ctx place h returned = elim (round place.item.put) [
    | quiet p e ↦
        let run = drain-quiet pb put fuel name ctx place p h e in
        (
          p,
          [],
          nothing e,
          ap (λ out. out.1) run
              ∙ ap (λ ks. record (moved put place p ctx) { knowledge = ks })
                  (sym (append-nil ctx.knowledge)),
        )
    | failed p error e ↦ cc (ap (λ out. out.0) (drain-failed pb put fuel name ctx place p h e))
    | unreadable p m error e k ↦
        cc (ap (λ out. out.0) (drain-unreadable pb put fuel name ctx place p h m e k))
    | readable p m opaque e k ↦
        let ls = learned_from pb name m opaque in
        let ctx' = with_knowledge ls (moved put place p ctx) in
        let place' = record place { item = record place.item { put = p } } in
        let run = drain-next pb put fuel name ctx place p h m opaque e k in
        let (q, ks, later, rest) =
          drain-Emits fuel name ctx' place' (Serves-moved put name ctx place p h)
            (sym (ap (λ out. out.0) run) ∙ returned) in
        (
          q,
          ls ++ ks,
          message m opaque e k later refl,
          ap (λ out. out.1) run ∙ rest ∙ with_knowledge-append ls ks (moved put place q ctx),
        )
  ]

  -- If a PUT gives out finitely many messages, all readable, and then none, the output loop of its
  -- agent returns with enough fuel, and has added exactly what these messages teach, in their
  -- order, to the knowledge; the agent is left with the last state of its PUT.
  pub Emits-drain :
      (name : AgentName) {p q : P} {ks : List (Knowledge V M)}
      → Emits name p ks q
      → (ctx : TraceContext V M C P) (place : Place (Agent P)) → Serves put name ctx place
      → place.item.put ≡ p
      → (enough : ℕ) × ((fuel : ℕ)
          → enough ≤ fuel
          → drain pb put fuel name ctx ≡ (ok tt, with_knowledge ks (moved put place q ctx)))
  Emits-drain name {p} {q} (nothing e) ctx place h at = (
    1,
    λ fuel le.
        let pos : fuel ≡ suc (fuel - 1) = omega (arith, le) in
        ap (λ n. drain pb put n name ctx) pos
        ∙ drain-quiet pb put (fuel - 1) name ctx place q h
            (ap put.take_message_from_outbound at ∙ e)
        ∙ ap (λ ks. (ok tt, record (moved put place q ctx) { knowledge = ks }))
            (sym (append-nil ctx.knowledge)),
  )
  Emits-drain name {p} {q} (message {p' = p'} {ks = ks} m opaque e k later all) ctx place h at =
      let ls = learned_from pb name m opaque in
      let ctx' = with_knowledge ls (moved put place p' ctx) in
      let place' : Place (Agent P) = record place { item = record place.item { put = p' } } in
      let (enough, ends) =
        Emits-drain name later ctx' place' (Serves-moved put name ctx place p' h) refl in
      (
        suc enough,
        λ fuel le.
            let pos : fuel ≡ suc (fuel - 1) = omega (arith, le) in
            ap (λ n. drain pb put n name ctx) pos
            ∙ drain-next pb put (fuel - 1) name ctx place p' h m opaque
                (ap put.take_message_from_outbound at ∙ e) k
            ∙ ends (fuel - 1) (omega (arith, le))
            ∙ ap (λ c. (ok tt, c)) (with_knowledge-append ls ks (moved put place q ctx))
            ∙ ap (λ ks. (ok tt, with_knowledge ks (moved put place q ctx))) (sym all),
      )

  -- How many messages a PUT can still give out is bounded.
  pub record IsBounded (pending : P → ℕ) : Type 0 where
    pub at_message :
        (p p' : P) (m : MessageResult Msg Opaque)
        → put.take_message_from_outbound p ≡ (ok (some m), p')
        → pending p' < pending p

  module _ (pending : P → ℕ) (bounded : IsBounded pending) where
    -- x
    pub drain_terminates :
        (fuel : ℕ) (name : AgentName) (ctx : TraceContext V M C P) (place : Place (Agent P))
        → Serves put name ctx place
        → pending place.item.put < fuel
        → ((drain pb put fuel name ctx).0 ≢ err out_of_fuel)
          × (drain pb put (suc fuel) name ctx ≡ drain pb put fuel name ctx)
    drain_terminates zero name ctx place h room = absurd (omega arith)
    drain_terminates (suc fuel) name ctx place h room = elim (round place.item.put) [
      | quiet p e ↦
          let run = λ (n : ℕ). drain-quiet pb put n name ctx place p h e in
          (λ stuck. cc (ap (λ out. out.0) (run fuel)), run (suc fuel) ∙ sym (run fuel))
      | failed p error e ↦
          let run = λ (n : ℕ). drain-failed pb put n name ctx place p h e in
          (λ stuck. cc (ap (λ out. out.0) (run fuel)), run (suc fuel) ∙ sym (run fuel))
      | unreadable p m error e k ↦
          let run = λ (n : ℕ). drain-unreadable pb put n name ctx place p h m e k in
          (λ stuck. cc (ap (λ out. out.0) (run fuel)), run (suc fuel) ∙ sym (run fuel))
      | readable p m opaque e k ↦
          let ctx' = with_knowledge (learned_from pb name m opaque) (moved put place p ctx) in
          let place' = record place { item = record place.item { put = p } } in
          let run = λ (n : ℕ). drain-next pb put n name ctx place p h m opaque e k in
          let (ends, same) =
            drain_terminates fuel name ctx' place' (Serves-moved put name ctx place p h)
              (omega (arith, bounded.at_message place.item.put p m e)) in
          (
            λ stuck. ends (sym (ap (λ out. out.0) (run fuel)) ∙ stuck),
            run (suc fuel) ∙ same ∙ sym (run fuel),
          )
    ]
