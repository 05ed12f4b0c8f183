-- ===== src/Execution/History.antt =====
-- puffin/src/trace.rs: what an execution never takes back.
use tlspuffin.Base.{ℕ, ◌≡◌, refl, sym, ◌∙◌, ap, List, [], ◌∷◌, ◌++◌, append-nil, append_assoc}
use tlspuffin.Trace.Defs.{Trace}
use tlspuffin.Execution.Put.{Put, ProtocolBehavior}
use tlspuffin.Execution.Context.{TraceContext, PutRegistry}
use tlspuffin.Execution.Actions.{execute}
use tlspuffin.Execution.Contract.{IsPut, IsRegistry}
use tlspuffin.Execution.Effects.{Change, learned, claimed, spawned, updated, Reach, here, next}
use tlspuffin.Execution.Refinement.{execute-Reach}

abbrev IsPrefix : {A : Type 0} → List A → List A → Type 0
IsPrefix {A} xs ys = (new : List A) × (ys ≡ xs ++ new)

module _ {A : Type 0} where
  IsPrefix-refl : (xs : List A) → IsPrefix xs xs
  IsPrefix-refl xs = ([], sym (append-nil xs))

  IsPrefix-trans : (xs ys zs : List A) → IsPrefix xs ys → IsPrefix ys zs → IsPrefix xs zs
  IsPrefix-trans xs ys zs (a, p) (b, q) = (a ++ b, q ∙ ap (λ l. l ++ b) p ∙ append_assoc xs a b)

module _ {V M C P : Type 0} where
  -- The later context has all that the earlier one knew and claimed, in its order, and its settings.
  pub record Extends (c c' : TraceContext V M C P) : Type 0 where
    pub knowledge_kept : IsPrefix c.knowledge c'.knowledge
    pub claims_kept : IsPrefix c.claims c'.claims
    pub puts_kept : c'.put_descriptors ≡ c.put_descriptors
    pub setting_kept : c'.deterministic ≡ c.deterministic

  Extends-refl : (c : TraceContext V M C P) → Extends c c
  Extends-refl c = record {
    knowledge_kept = IsPrefix-refl c.knowledge;
    claims_kept = IsPrefix-refl c.claims;
    puts_kept = refl;
    setting_kept = refl;
  }

  Extends-trans : (c d e : TraceContext V M C P) → Extends c d → Extends d e → Extends c e
  Extends-trans c d e h k = record {
    knowledge_kept =
        IsPrefix-trans c.knowledge d.knowledge e.knowledge h.knowledge_kept k.knowledge_kept;
    claims_kept = IsPrefix-trans c.claims d.claims e.claims h.claims_kept k.claims_kept;
    puts_kept = k.puts_kept ∙ h.puts_kept;
    setting_kept = k.setting_kept ∙ h.setting_kept;
  }

module _ {V M C Msg Opaque P : Type 0} {put : Put P C Msg Opaque} where
  Change-Extends : (c c' : TraceContext V M C P) → Change put c c' → Extends c c'
  Change-Extends c c' (learned k e) = rw e (record {
    knowledge_kept = (k ∷ [], refl);
    claims_kept = IsPrefix-refl c.claims;
    puts_kept = refl;
    setting_kept = refl;
  })
  Change-Extends c c' (claimed new e) = rw e (record {
    knowledge_kept = IsPrefix-refl c.knowledge;
    claims_kept = (new, refl);
    puts_kept = refl;
    setting_kept = refl;
  })
  Change-Extends c c' (spawned d a _ _ e) = rw e (record {
    knowledge_kept = IsPrefix-refl c.knowledge;
    claims_kept = IsPrefix-refl c.claims;
    puts_kept = refl;
    setting_kept = refl;
  })
  Change-Extends c c' (updated place a new _ _ e) = rw e (record {
    knowledge_kept = IsPrefix-refl c.knowledge;
    claims_kept = (new, refl);
    puts_kept = refl;
    setting_kept = refl;
  })

  Reach-Extends : {c c' : TraceContext V M C P} → Reach put c c' → Extends c c'
  Reach-Extends {c} here = Extends-refl c
  Reach-Extends {c} (next r ch) = Extends-trans c _ _ (Reach-Extends r) (Change-Extends _ _ ch)

module _ {V M C Msg Opaque P : Type 0} (pb : ProtocolBehavior V M C Msg Opaque)
    {put : Put P C Msg Opaque} (laws : IsPut put) (registry : PutRegistry V M C P)
    (made : IsRegistry put registry) where
  -- Where PUTs and factories keep their contract, the execution of a trace, also one that fails,
  -- keeps the knowledge and the claims as the start of the later lists, and keeps the PUT
  -- descriptors and the deterministic setting.
  pub execute-Extends :
      (fuel : ℕ) (trace : Trace V M) (ctx : TraceContext V M C P)
      → Extends ctx (execute pb put registry fuel trace ctx).1
  execute-Extends fuel trace ctx =
      Reach-Extends (execute-Reach pb laws registry made fuel trace ctx)
