-- ===== src/Fuzzer/SwapSafety.antt =====
-- puffin/src/fuzzer/mutations.rs, `SwapMutator`: the types of the recipes after a swap.
use tlspuffin.Base.{
  ℕ, zero, suc, ◌≡◌, refl, sym, ap, ◌∙◌, subst, true, List, [], ◌∷◌, Option, none, some, All,
  and_then, Option-step,
}
use tlspuffin.Algebra.Shape.{TypeShape}
use tlspuffin.Algebra.Term.{Term, Terms}
use tlspuffin.Algebra.Typing.{WellTyped, Fits}
use tlspuffin.Algebra.Path.{
  Mut, TermPath, find_term_by_term_path_mut, PointsTo, PointsIn, root, below, here, further,
  within-eq-some, find-PointsTo,
}
use tlspuffin.Algebra.Subterms.{same_shape}
use tlspuffin.Trace.Defs.{
  Trace, Step, Action, input, output, steps, with_steps, of_parts, StepTyped, TraceTyped,
}
use tlspuffin.Fuzzer.Rand.{Rand}
use tlspuffin.Fuzzer.Sampling.{TermConstraints, TracePath, Found, reservoir_sample}
use tlspuffin.Fuzzer.Choose.{
  find_in_action, find_in_steps, find_term_mut, choose, choose_term_path_filtered,
}
use tlspuffin.Fuzzer.Places.{find_term_mut-TypedPlace, ActionTyped}
use tlspuffin.Fuzzer.Targets.{
  term_at, find_term_mut-target, sample-term_at, sample-WellTyped, target-some,
}
use tlspuffin.Fuzzer.TypeSafety.{Leaves, same_shape→SameType}
use tlspuffin.Fuzzer.Swap.{IsAbove, Alike, steps-Alike}
use tlspuffin.Fuzzer.Mutators.{swap_terms, swap_mutate}

module _ {V M : Type 0} where
  trace-Alike :
      (tr : Trace V M) (path_b path_a : TracePath) (r : Mut V M (Trace V M)) (u a b : Term V M)
      → find_term_mut tr path_b ≡ some r
      → ¬ IsAbove path_b path_a
      → Alike u r.target
      → term_at (steps tr) path_a ≡ some a
      → term_at (steps (r.write u)) path_a ≡ some b
      → Alike b a
  unfolding find_term_mut
  trace-Alike (of_parts ds ss ps) (i, p) (j, q) r u a b e n h =
      let (x, found, same) =
        within-eq-some (with_steps (of_parts ds ss ps)) (find_in_steps ss i p) e in
      subst
        (λ (y : Mut V M (Trace V M)).
          Alike u y.target
          → term_at ss (j, q) ≡ some a
          → term_at (steps (y.write u)) (j, q) ≡ some b
          → Alike b a)
        same (λ h' ea eb. steps-Alike ss i j p q x u a b found n h' ea eb) h

  -- Swapping a well-typed term at one path with a term of the same type at another keeps all
  -- recipes well-typed, unless the second path stands strictly above the first one in the same
  -- recipe.
  pub swap_terms-TraceTyped :
      (tr : Trace V M) (term_a : Term V M) (path_a path_b : TracePath) (r : Mut V M (Trace V M))
      → TraceTyped tr
      → term_at (steps tr) path_a ≡ some term_a
      → WellTyped term_a
      → find_term_mut tr path_b ≡ some r
      → Alike term_a r.target
      → ¬ IsAbove path_b path_a
      → TraceTyped (swap_terms tr term_a path_a r)
  unfolding swap_terms
  swap_terms-TraceTyped tr term_a path_a path_b r typed at good found same apart =
      let place = find_term_mut-TypedPlace tr path_b found typed in
      let first : TraceTyped (r.write term_a) = place.write_typed term_a (good, same) in
      Option-step TraceTyped (find_term_mut (r.write term_a) path_a) _ _ first λ r' found'.
        let now = find_term_mut-target (r.write term_a) path_a in
        let there : term_at (steps (r.write term_a)) path_a ≡ some r'.target =
          sym now ∙ ap (λ o. and_then o (λ (x : Mut V M (Trace V M)). some x.target)) found' in
        (find_term_mut-TypedPlace (r.write term_a) path_a found' first).write_typed r.target (
          place.target_typed,
          sym same
              ∙ sym (
                  trace-Alike tr path_b path_a r term_a term_a r'.target found apart same at there),
        )

  mutual
    unfolding WellTyped

    -- Writing a term of another type strictly inside a well-typed term makes it ill-typed.
    write-ill :
        {t : Term V M} {i : ℕ} {p : TermPath} {r : Mut V M (Term V M)}
        → PointsTo t (i ∷ p) r
        → (u : Term V M) → WellTyped t
        → ¬ Alike u r.target
        → ¬ WellTyped (r.write u)
    write-ill (below f d) u h n = write-ill_in f.shape.argument_types d u h n

    write-ill_in :
        (types : List TypeShape) {ts : Terms V M} {i : ℕ} {p : TermPath} {r : Mut V M (Terms V M)}
        → PointsIn ts i p r
        → (u : Term V M) → Fits ts types
        → ¬ Alike u r.target
        → ¬ Fits (r.write u) types
    write-ill_in [] (here ts d) u h n k = h
    write-ill_in [] (further t d) u h n k = h
    write-ill_in (b ∷ bs) (here ts (root t)) u h n k = n (k.0 ∙ sym h.0)
    write-ill_in (b ∷ bs) (here ts (below f d)) u h n k =
        write-ill_in f.shape.argument_types d u h.1 n k.1
    write-ill_in (b ∷ bs) (further t d) u h n k = write-ill_in bs d u h.2 n k.2

  action-ill :
      (s : Action V M) (i : ℕ) (p : TermPath) (r : Mut V M (Action V M)) (u : Term V M)
      → find_in_action s (i ∷ p) ≡ some r
      → ActionTyped s
      → ¬ Alike u r.target
      → ¬ ActionTyped (r.write u)
  unfolding find_in_action
  action-ill output i p r u e h = absurd (cc)
  action-ill (input recipe) i p r u e h =
      let (x, found, same) = within-eq-some input (find_term_by_term_path_mut recipe (i ∷ p)) e in
      subst (λ (y : Mut V M (Action V M)). ¬ Alike u y.target → ¬ ActionTyped (y.write u)) same
        (λ n. write-ill (find-PointsTo recipe (i ∷ p) found) u h n)

  steps-ill :
      (ss : List (Step V M)) (k i : ℕ) (p : TermPath) (r : Mut V M (List (Step V M))) (u : Term V M)
      → find_in_steps ss k (i ∷ p) ≡ some r
      → All StepTyped ss
      → ¬ Alike u r.target
      → ¬ All StepTyped (r.write u)
  unfolding find_in_steps
  steps-ill [] k i p r u e h = absurd (cc)
  steps-ill (s ∷ ss) zero i p r u e h =
      let (x, found, same) =
        within-eq-some (λ t. record s { action = t } ∷ ss) (find_in_action s.action (i ∷ p)) e in
      subst (λ (y : Mut V M (List (Step V M))). ¬ Alike u y.target → ¬ All StepTyped (y.write u))
        same (λ n k. action-ill s.action i p x u found h.0 n k.0)
  steps-ill (s ∷ ss) (suc k) i p r u e h =
      let (x, found, same) = within-eq-some (λ rest. s ∷ rest) (find_in_steps ss k (i ∷ p)) e in
      subst (λ (y : Mut V M (List (Step V M))). ¬ Alike u y.target → ¬ All StepTyped (y.write u))
        same (λ n m. steps-ill ss k i p x u found h.1 n m.1)

  trace-ill :
      (tr : Trace V M) (k i : ℕ) (p : TermPath) (r : Mut V M (Trace V M)) (u : Term V M)
      → find_term_mut tr (k, i ∷ p) ≡ some r
      → TraceTyped tr
      → ¬ Alike u r.target
      → ¬ TraceTyped (r.write u)
  unfolding find_term_mut
  trace-ill (of_parts ds ss ps) k i p r u e h =
      let (x, found, same) =
        within-eq-some (with_steps (of_parts ds ss ps)) (find_in_steps ss k (i ∷ p)) e in
      subst (λ (y : Mut V M (Trace V M)). ¬ Alike u y.target → ¬ TraceTyped (y.write u)) same
        (λ n. steps-ill ss k i p x u found h n)

  -- If, after the first write of a swap of two terms of one type, the first path leads inside a
  -- recipe to a term of another type, the trace that the swap leaves is not well-typed.
  pub swap_terms_ill_typed :
      (tr : Trace V M) (term_a : Term V M) (path_b : TracePath) (k i : ℕ) (p : TermPath)
      (r r' : Mut V M (Trace V M))
      → TraceTyped tr
      → WellTyped term_a
      → find_term_mut tr path_b ≡ some r
      → Alike term_a r.target
      → find_term_mut (r.write term_a) (k, i ∷ p) ≡ some r'
      → ¬ Alike r'.target term_a
      → ¬ TraceTyped (swap_terms tr term_a (k, i ∷ p) r)
  unfolding swap_terms
  swap_terms_ill_typed tr term_a path_b k i p r r' typed good found same moved differ =
      let place = find_term_mut-TypedPlace tr path_b found typed in
      rw (moved, swap_terms)
        (trace-ill (r.write term_a) k i p r' r.target moved (place.write_typed term_a (good, same))
          (λ e. differ (sym e ∙ sym same)))

module _ {V M R : Type 0} (rng : Rand R) where
  -- SWAP leaves a typed trace typed whenever the second path that it draws is not above the first.
  pub swap_mutate-TraceTyped :
      (c : TermConstraints) (tr : Trace V M) (rand : R)
      → TraceTyped tr
      → ((term_a : Term V M) (path_a path_b : TracePath)
          → (choose rng tr c rand).0 ≡ some (term_a, path_a)
          → (choose_term_path_filtered rng tr
              (λ term. same_shape term term_a)
              c
              (choose rng tr c rand).1).0
            ≡ some path_b
          → ¬ IsAbove path_b path_a)
      → Leaves TraceTyped (swap_mutate rng c tr rand)
  unfolding swap_mutate choose choose_term_path_filtered
  swap_mutate-TraceTyped c tr rand typed apart =
      Option-step (Leaves TraceTyped) (choose rng tr c rand).0 _ _ typed λ (term_a, path_a) chosen.
        let rand1 = (choose rng tr c rand).1 in
        let alike = λ (t : Term V M). same_shape t term_a in
        Option-step (Leaves TraceTyped) (choose_term_path_filtered rng tr alike c rand1).0 _ _ typed
          λ path_b second.
            Option-step (Leaves TraceTyped) (find_term_mut tr path_b) _ _ typed λ r found.
              let start = sample-term_at rng (λ t. true) tr c rand term_a path_a chosen in
              swap_terms-TraceTyped tr term_a path_a path_b r typed start.0
                (sample-WellTyped rng (λ t. true) tr c rand term_a path_a typed chosen) found
                (sym
                  (same_shape→SameType r.target term_a (passed term_a rand1 path_b r second found)))
                (apart term_a path_a path_b chosen second)
    where
      passed :
          (term_a : Term V M) (rand1 : R) (path_b : TracePath) (r : Mut V M (Trace V M))
          → and_then (reservoir_sample rng (λ t. same_shape t term_a) tr c rand1).0 (λ x. some x.1)
            ≡ some path_b
          → find_term_mut tr path_b ≡ some r
          → same_shape r.target term_a ≡ true
      passed term_a rand1 path_b r second found =
          from (reservoir_sample rng (λ t. same_shape t term_a) tr c rand1).0 refl second
        where
          from :
              (o : Option (Found V M))
              → (reservoir_sample rng (λ t. same_shape t term_a) tr c rand1).0 ≡ o
              → and_then o (λ x. some x.1) ≡ some path_b
              → same_shape r.target term_a ≡ true
          from none sampled h = absurd (cc)
          from (some (t, path)) sampled h =
              let at = sample-term_at rng (λ x. same_shape x term_a) tr c rand1 t path sampled in
              let same : path ≡ path_b = cc in
              let target = target-some (find_term_mut tr path_b) r t found (
                find_term_mut-target tr path_b
                ∙ subst (λ y. term_at (steps tr) y ≡ some t) same at.0) in
              ap (λ x. same_shape x term_a) target ∙ at.1
