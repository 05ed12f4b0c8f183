-- ===== src/Fuzzer/Targets.antt =====
-- The terms that the random choices of puffin/src/fuzzer/mutations.rs, `util`, lead to.
use tlspuffin.Base.{
  ℕ, zero, suc, ◌≡◌, refl, ap, ◌∙◌, subst, Bool, true, List, [], ◌∷◌, Option, none, some, and_then,
}
use tlspuffin.Algebra.Term.{Term}
use tlspuffin.Algebra.Typing.{WellTyped}
use tlspuffin.Algebra.Path.{
  Mut, TermPath, find_term_by_term_path_mut, subterm_at, target-within, target-subterm_at,
}
use tlspuffin.Trace.Defs.{Trace, Step, Action, input, output, steps, with_steps, TraceTyped}
use tlspuffin.Fuzzer.Rand.{Rand}
use tlspuffin.Fuzzer.Sampling.{TermConstraints, TracePath, Found, reservoir_sample}
use tlspuffin.Fuzzer.Positions.{recipe_at, recipe_of}
use tlspuffin.Fuzzer.Reservoir.{reservoir_sample_sound}
use tlspuffin.Fuzzer.Choose.{
  find_in_action, find_in_steps, find_term_mut, choose_term, choose_term_filtered_mut,
}
use tlspuffin.Fuzzer.Places.{TypedPlace, find_term_mut-TypedPlace}

module _ {V M : Type 0} where
  abbrev pub target_of : {C : Type 0} → Option (Mut V M C) → Option (Term V M)
  target_of o = and_then o (λ r. some r.target)

  -- The term at a path of the trace.
  unfoldable pub term_at : List (Step V M) → TracePath → Option (Term V M)
  term_at ss path = and_then (recipe_at ss path.0) (λ recipe. subterm_at recipe path.1)

  action-target :
      (a : Action V M) (p : TermPath)
      → target_of (find_in_action a p) ≡ and_then (recipe_of a) (λ recipe. subterm_at recipe p)
  unfolding find_in_action
  action-target output p = refl
  action-target (input recipe) p =
      target-within input (find_term_by_term_path_mut recipe p) ∙ target-subterm_at recipe p

  steps-target :
      (ss : List (Step V M)) (i : ℕ) (p : TermPath)
      → target_of (find_in_steps ss i p) ≡ term_at ss (i, p)
  unfolding find_in_steps term_at recipe_at
  steps-target [] i p = refl
  steps-target (s ∷ ss) zero p =
      target-within (λ a. record s { action = a } ∷ ss) (find_in_action s.action p)
      ∙ action-target s.action p
  steps-target (s ∷ ss) (suc i) p =
      target-within (λ rest. s ∷ rest) (find_in_steps ss i p) ∙ steps-target ss i p

  -- A path of the trace has a reference exactly when it has a term, and the target is that term.
  pub find_term_mut-target :
      (tr : Trace V M) (path : TracePath)
      → and_then (find_term_mut tr path) (λ r. some r.target) ≡ term_at (steps tr) path
  unfolding find_term_mut
  find_term_mut-target tr (i, p) =
      target-within (with_steps tr) (find_in_steps (steps tr) i p) ∙ steps-target (steps tr) i p

  pub target-some :
      {C : Type 0} (o : Option (Mut V M C)) (r : Mut V M C) (u : Term V M)
      → o ≡ some r
      → target_of o ≡ some u
      → r.target ≡ u
  target-some none r u e h = cc
  target-some (some q) r u e h = cc

  some_of_target :
      {C : Type 0} (o : Option (Mut V M C)) (u : Term V M)
      → target_of o ≡ some u
      → (r : Mut V M C) × (o ≡ some r) × (r.target ≡ u)
  some_of_target none u h = cc
  some_of_target (some q) u h = (q, refl, cc)

module _ {V M R : Type 0} (rng : Rand R) where
  -- The sampled term is the one at the sampled path.
  pub sample-term_at :
      (filter : Term V M → Bool) (tr : Trace V M) (c : TermConstraints) (rand : R) (u : Term V M)
      (path : TracePath)
      → (reservoir_sample rng filter tr c rand).0 ≡ some (u, path)
      → (term_at (steps tr) path ≡ some u) × (filter u ≡ true)
  unfolding term_at
  sample-term_at filter tr c rand u (k, q) e =
      let (recipe, found, _, at, passed) = reservoir_sample_sound rng filter tr c rand u k q e in
      (rw found at, passed)

  -- The reference that a sampled path leads to.
  pub sample-place :
      (filter : Term V M → Bool) (tr : Trace V M) (c : TermConstraints) (rand : R) (u : Term V M)
      (path : TracePath)
      → (reservoir_sample rng filter tr c rand).0 ≡ some (u, path)
      → (r : Mut V M (Trace V M)) × (find_term_mut tr path ≡ some r) × (r.target ≡ u)
  sample-place filter tr c rand u path e =
      some_of_target (find_term_mut tr path) u
        (find_term_mut-target tr path ∙ (sample-term_at filter tr c rand u path e).0)

  pub sample-WellTyped :
      (filter : Term V M → Bool) (tr : Trace V M) (c : TermConstraints) (rand : R) (u : Term V M)
      (path : TracePath)
      → TraceTyped tr
      → (reservoir_sample rng filter tr c rand).0 ≡ some (u, path)
      → WellTyped u
  sample-WellTyped filter tr c rand u path typed e =
      let (r, found, same) = sample-place filter tr c rand u path e in
      subst WellTyped same (find_term_mut-TypedPlace tr path found typed).target_typed

  -- A mutable choice is a typed place, and its target passes the filter.
  pub choose_term_filtered_mut-place :
      (filter : Term V M → Bool) (tr : Trace V M) (c : TermConstraints) (rand : R)
      (r : Mut V M (Trace V M))
      → TraceTyped tr
      → (choose_term_filtered_mut rng tr filter c rand).0 ≡ some r
      → TypedPlace TraceTyped r × (filter r.target ≡ true)
  unfolding choose_term_filtered_mut
  choose_term_filtered_mut-place filter tr c rand r typed e =
      from (reservoir_sample rng filter tr c rand).0 refl e
    where
      from :
          (o : Option (Found V M))
          → (reservoir_sample rng filter tr c rand).0 ≡ o
          → and_then (and_then o (λ x. some x.1)) (find_term_mut tr) ≡ some r
          → TypedPlace TraceTyped r × (filter r.target ≡ true)
      from none sampled h = absurd (cc)
      from (some (u, path)) sampled h =
          let at = sample-term_at filter tr c rand u path sampled in
          let same =
            target-some (find_term_mut tr path) r u h (find_term_mut-target tr path ∙ at.0) in
          (find_term_mut-TypedPlace tr path h typed, ap filter same ∙ at.1)

  pub choose_term-WellTyped :
      (tr : Trace V M) (c : TermConstraints) (rand : R) (u : Term V M)
      → TraceTyped tr
      → (choose_term rng tr c rand).0 ≡ some u
      → WellTyped u
  unfolding choose_term
  choose_term-WellTyped tr c rand u typed e =
      from (reservoir_sample rng (λ term. true) tr c rand).0 refl e
    where
      from :
          (o : Option (Found V M))
          → (reservoir_sample rng (λ term. true) tr c rand).0 ≡ o
          → and_then o (λ x. some x.0) ≡ some u
          → WellTyped u
      from none sampled h = absurd (cc)
      from (some (t, path)) sampled h =
          subst WellTyped (cc) (sample-WellTyped (λ term. true) tr c rand t path typed sampled)
