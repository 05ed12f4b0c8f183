-- ===== src/Execution/Effects.antt =====
-- puffin/src/trace.rs: what an execution may do to its context, as a step relation, and the rules for the
-- methods that do no more.
use tlspuffin.Base.{
  ◌≡◌, Bool, true, false, List, [], ◌∷◌, ◌++◌, none, some, Option, Result, ok, err, All,
  if◌then◌else◌,
}
use tlspuffin.Agent.{AgentDescriptor, is_reusable_with}
use tlspuffin.Trace.Context.{Knowledge}
use tlspuffin.Trace.Evaluation.{Error}
use tlspuffin.Execution.Monad.{Stop, Exec, pure, stop, from_result, gets, continue, ◌>>=◌}
use tlspuffin.Execution.Put.{Put}
use tlspuffin.Execution.Context.{Agent, TraceContext}
use tlspuffin.Execution.Agents.{Place, write}
use tlspuffin.Execution.Contract.{role}

module _ {V M C Msg Opaque P : Type 0} (put : Put P C Msg Opaque) where
  -- One change of the context.
  pub data Change (c c' : TraceContext V M C P) : Type 0 where
    learned :
        (k : Knowledge V M) → c' ≡ record c { knowledge = c.knowledge ++ k ∷ [] } → Change c c'
    claimed : (new : List C) → c' ≡ record c { claims = c.claims ++ new } → Change c c'
    spawned :
        (d : AgentDescriptor) (a : Agent P)
        → All (λ e. is_reusable_with (put.descriptor e.put) d ≡ false) c.agents
        → role (put.descriptor a.put) ≡ role d
        → c' ≡ record c { agents = c.agents ++ a ∷ [] }
        → Change c c'
    updated :
        (place : Place (Agent P)) (a : Agent P) (new : List C)
        → c.agents ≡ write place place.item
        → role (put.descriptor a.put) ≡ role (put.descriptor place.item.put)
        → c' ≡ record c { agents = write place a; claims = c.claims ++ new }
        → Change c c'

  pub data Reach (c : TraceContext V M C P) : TraceContext V M C P → Type 0 where
    here : Reach c c
    next : {t u : TraceContext V M C P} → Reach c t → Change t u → Reach c u

  pub Reach-one : {c d : TraceContext V M C P} → Change c d → Reach c d
  Reach-one ch = next here ch

  pub Reach-trans : {c d e : TraceContext V M C P} → Reach c d → Reach d e → Reach c e
  Reach-trans r here = r
  Reach-trans r (next q ch) = next (Reach-trans r q) ch

  -- Whether it returns or fails, the method leaves a context that is reached from the first.
  pub record Follows {A : Type 0} (m : Exec (TraceContext V M C P) A) : Type 0 where
    pub at : (ctx : TraceContext V M C P) → Reach ctx (m ctx).1

module _ {V M C Msg Opaque P : Type 0} {put : Put P C Msg Opaque} {A : Type 0} where
  pub Follows-pure : (a : A) → Follows {V = V} {M = M} put (pure a)
  unfolding pure
  Follows-pure a = record { at = λ ctx. here }

  pub Follows-stop : (e : Stop) → Follows {V = V} {M = M} put (stop {A = A} e)
  unfolding stop
  Follows-stop e = record { at = λ ctx. here }

  pub Follows-from_result : (r : Result Error A) → Follows {V = V} {M = M} put (from_result r)
  unfolding from_result
  Follows-from_result (ok a) = record { at = λ ctx. here }
  Follows-from_result (err e) = record { at = λ ctx. here }

  pub Follows-gets : (f : TraceContext V M C P → A) → Follows put (gets f)
  unfolding gets
  Follows-gets f = record { at = λ ctx. here }

module _ {V M C Msg Opaque P : Type 0} {put : Put P C Msg Opaque} {A B : Type 0} where
  Follows-continue :
      (r : Result Stop A) (f : A → Exec (TraceContext V M C P) B)
      → ((a : A) → Follows put (f a))
      → Follows put (continue r f)
  unfolding continue
  Follows-continue (ok a) f k = record { at = λ ctx. (k a).at ctx }
  Follows-continue (err e) f k = record { at = λ ctx. here }

  pub bind-Reach :
      (m : Exec (TraceContext V M C P) A) (f : A → Exec (TraceContext V M C P) B)
      (ctx : TraceContext V M C P)
      → Reach put ctx (m ctx).1
      → ((a : A) → Follows put (f a))
      → Reach put ctx ((m >>= f) ctx).1
  unfolding ◌>>=◌
  bind-Reach m f ctx h k =
      let (r, ctx') = m ctx in Reach-trans put h ((Follows-continue r f k).at ctx')

  pub Follows-bind :
      (m : Exec (TraceContext V M C P) A) (f : A → Exec (TraceContext V M C P) B)
      → Follows put m
      → ((a : A) → Follows put (f a))
      → Follows put (m >>= f)
  Follows-bind m f h k = record { at = λ ctx. bind-Reach m f ctx (h.at ctx) k }

module _ {V M C Msg Opaque P A : Type 0} {put : Put P C Msg Opaque} where
  pub Follows-if :
      (b : Bool) (m n : Exec (TraceContext V M C P) A)
      → Follows put m
      → Follows put n
      → Follows put (if b then m else n)
  Follows-if true m n h k = h
  Follows-if false m n h k = k

  pub Follows-Option :
      {B : Type 0} (o : Option B) (m : Exec (TraceContext V M C P) A)
      (f : B → Exec (TraceContext V M C P) A)
      → Follows put m
      → ((b : B) → Follows put (f b))
      → Follows put (elim o [ none ↦ m | some b ↦ f b ])
  Follows-Option none m f h k = h
  Follows-Option (some b) m f h k = k b

pub ruleset follows_rules = (
  Follows-pure, Follows-stop, Follows-from_result, Follows-gets, Follows-bind, Follows-if,
  Follows-Option,
)
