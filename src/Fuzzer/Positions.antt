-- ===== src/Fuzzer/Positions.antt =====
-- puffin/src/fuzzer/mutations.rs, `reservoir_sample`: where the visited subterms stand.
use tlspuffin.Base.{
  ℕ, zero, suc, ◌+◌, ◌≡◌, refl, sym, ap, ◌∙◌, subst, Bool, true, false, List, [], ◌∷◌, ◌++◌, Option,
  none, some, append_assoc, append-nil, arith, Bool-cases, inl, inr, All, All-append, All-map, any,
  any-append_left, any-append_right,
}
use tlspuffin.Algebra.Term.{Term, Terms, variable, application, nil, cons}
use tlspuffin.Algebra.Path.{TermPath, subterm_at, subterm_in}
use tlspuffin.Trace.Defs.{Step, Action, input, output}
use tlspuffin.Fuzzer.Sampling.{TermConstraints, TracePath, Found, out_of_bounds}
use tlspuffin.Fuzzer.Enumeration.{positions, positions_in, step_candidates, candidates}

module _ {V M : Type 0} where
  abbrev pub recipe_of : Action V M → Option (Term V M)
  recipe_of (input recipe) = some recipe
  recipe_of output = none

  -- The recipe of the step at an index, if that step is an input.
  unfoldable pub recipe_at : List (Step V M) → ℕ → Option (Term V M)
  recipe_at [] i = none
  recipe_at (s ∷ ss) zero = recipe_of s.action
  recipe_at (s ∷ ss) (suc i) = recipe_at ss i

  abbrev pub Below : Term V M → TracePath → Found V M → Type 0
  Below t p x = (q : TermPath) × (x.1.0 ≡ p.0) × (x.1.1 ≡ p.1 ++ q) × (subterm_at t q ≡ some x.0)

  abbrev BelowChild : Terms V M → TracePath → ℕ → Found V M → Type 0
  BelowChild ts p i x =
      (k : ℕ) × (q : TermPath) × (x.1.0 ≡ p.0)
      × (x.1.1 ≡ p.1 ++ (i + k) ∷ q)
      × (subterm_in ts k q ≡ some x.0)

  Below-child :
      (f : _) (ts : Terms V M) (p : TracePath) (x : Found V M)
      → BelowChild ts p 0 x
      → Below (application f ts) p x
  unfolding subterm_at
  Below-child f ts p x (k, q, e, e', h) =
      (k ∷ q, e, subst (λ n. x.1.1 ≡ p.1 ++ n ∷ q) (omega arith) e', h)

  child_later :
      (t : Term V M) (ts : Terms V M) (p : TracePath) (i : ℕ) (x : Found V M)
      → BelowChild ts p (i + 1) x
      → BelowChild (cons t ts) p i x
  unfolding subterm_at
  child_later t ts p i x (k, q, e, e', h) =
      (suc k, q, e, subst (λ n. x.1.1 ≡ p.1 ++ n ∷ q) (omega arith) e', h)

  child_first :
      (t : Term V M) (ts : Terms V M) (p : TracePath) (i : ℕ) (x : Found V M)
      → Below t (p.0, p.1 ++ i ∷ []) x
      → BelowChild (cons t ts) p i x
  unfolding subterm_at
  child_first t ts p i x (q, e, e', h) =
      (0, q, e, e' ∙ append_assoc p.1 (i ∷ []) q ∙ ap (λ n. p.1 ++ n ∷ q) (omega arith), h)

  mutual
    unfolding positions subterm_at

    positions-Below : (t : Term V M) (p : TracePath) → All (Below t p) (positions t p)
    positions-Below (variable v) p = (([], refl, sym (append-nil p.1), refl), tt)
    positions-Below (application f ts) p = (
      ([], refl, sym (append-nil p.1), refl),
      All-map (positions_in ts p 0) (Below-child f ts p) (positions_in-Below ts p 0),
    )

    positions_in-Below :
        (ts : Terms V M) (p : TracePath) (i : ℕ) → All (BelowChild ts p i) (positions_in ts p i)
    positions_in-Below nil p i = tt
    positions_in-Below (cons t ts) p i =
        All-append (BelowChild (cons t ts) p i) (positions_in ts p (i + 1))
          (positions t (p.0, p.1 ++ i ∷ []))
          (All-map (positions_in ts p (i + 1)) (child_later t ts p i)
            (positions_in-Below ts p (i + 1)))
          (All-map (positions t (p.0, p.1 ++ i ∷ [])) (child_first t ts p i)
            (positions-Below t (p.0, p.1 ++ i ∷ [])))

module _ {V M : Type 0} (filter : Term V M → Bool) where
  abbrev passes : Found V M → Bool
  passes x = filter x.0

  passes_of_some : (t u : Term V M) → some t ≡ some u → filter u ≡ true → filter t ≡ true
  passes_of_some t u e h = cc

  mutual
    unfolding positions subterm_at

    -- A subterm that passes the filter is among the positions.
    positions-any :
        (t : Term V M) (p : TracePath) (q : TermPath) {u : Term V M}
        → subterm_at t q ≡ some u
        → filter u ≡ true
        → any passes (positions t p) ≡ true
    positions-any (variable v) p [] e h = rw (passes_of_some (variable v) _ e h)
    positions-any (application f ts) p [] e h = rw (passes_of_some (application f ts) _ e h)
    positions-any (variable v) p (i ∷ q) e h = cc
    positions-any (application f ts) p (i ∷ q) e h =
        any-append_right passes ((application f ts, p) ∷ []) (positions_in ts p 0)
          (positions_in-any ts p 0 i q e h)

    positions_in-any :
        (ts : Terms V M) (p : TracePath) (i k : ℕ) (q : TermPath) {u : Term V M}
        → subterm_in ts k q ≡ some u
        → filter u ≡ true
        → any passes (positions_in ts p i) ≡ true
    positions_in-any nil p i k q e h = cc
    positions_in-any (cons t ts) p i zero q e h =
        any-append_right passes (positions_in ts p (i + 1)) (positions t (p.0, p.1 ++ i ∷ []))
          (positions-any t (p.0, p.1 ++ i ∷ []) q e h)
    positions_in-any (cons t ts) p i (suc k) q e h =
        any-append_left passes (positions_in ts p (i + 1)) (positions t (p.0, p.1 ++ i ∷ []))
          (positions_in-any ts p (i + 1) k q e h)

-- Where a candidate stands: in the recipe of its step, which is within the size bounds.
abbrev pub Located : {V M : Type 0} → TermConstraints → ℕ → List (Step V M) → Found V M → Type 0
Located {V} {M} c i ss x =
    (k : ℕ) × (recipe : Term V M) × (x.1.0 ≡ i + k)
    × (recipe_at ss k ≡ some recipe)
    × (out_of_bounds c recipe ≡ false)
    × (subterm_at recipe x.1.1 ≡ some x.0)

module _ {V M : Type 0} (c : TermConstraints) where
  Located-here :
      (recipe : Term V M) (i : ℕ) (a : ℕ) (rest : List (Step V M)) (x : Found V M)
      → out_of_bounds c recipe ≡ false
      → Below recipe (i, []) x
      → Located c i (record { agent = a; action = input recipe } ∷ rest) x
  unfolding recipe_at
  Located-here recipe i a rest x e (q, at, path, h) =
      (0, recipe, omega arith, refl, e, subst (λ p. subterm_at recipe p ≡ some x.0) (sym path) h)

  Located-later :
      (s : Step V M) (ss : List (Step V M)) (i : ℕ) (x : Found V M)
      → Located c (i + 1) ss x
      → Located c i (s ∷ ss) x
  unfolding recipe_at
  Located-later s ss i x (k, recipe, at, found, bounds, h) =
      (suc k, recipe, omega arith, found, bounds, h)

  step-Located :
      (i a : ℕ) (action : Action V M) (rest : List (Step V M))
      → All
          (Located c i (record { agent = a; action = action } ∷ rest))
          (step_candidates c i action)
  unfolding step_candidates
  step-Located i a output rest = tt
  step-Located i a (input recipe) rest = elim (Bool-cases (out_of_bounds c recipe)) [
    | inl e ↦ rw e tt
    | inr e ↦ rw e (
        All-map (positions recipe (i, [])) (λ x. Located-here recipe i a rest x e)
          (positions-Below recipe (i, [])))
  ]

  pub candidates-Located : (i : ℕ) (ss : List (Step V M)) → All (Located c i ss) (candidates c i ss)
  unfolding candidates
  candidates-Located i [] = tt
  candidates-Located i (s ∷ ss) =
      All-append (Located c i (s ∷ ss)) (step_candidates c i s.action) (candidates c (i + 1) ss)
        (step-Located i s.agent s.action ss)
        (All-map (candidates c (i + 1) ss) (Located-later s ss i) (candidates-Located (i + 1) ss))

  step-any :
      (filter : Term V M → Bool) (i : ℕ) (q : TermPath) (a : Action V M) (recipe u : Term V M)
      → recipe_of a ≡ some recipe
      → out_of_bounds c recipe ≡ false
      → subterm_at recipe q ≡ some u
      → filter u ≡ true
      → any (λ x. filter x.0) (step_candidates c i a) ≡ true
  unfolding step_candidates
  step-any filter i q output recipe u e b h p = cc
  step-any filter i q (input r) recipe u e b h p =
      let same : r ≡ recipe = cc in
      rw (ap (out_of_bounds c) same, b)
        (positions-any filter r (i, []) q (subst (λ t. subterm_at t q ≡ some u) (sym same) h) p)

  -- A subterm of an admissible recipe that passes the filter is a candidate.
  pub candidates-any :
      (filter : Term V M → Bool) (i k : ℕ) (ss : List (Step V M)) (q : TermPath)
      (recipe u : Term V M)
      → recipe_at ss k ≡ some recipe
      → out_of_bounds c recipe ≡ false
      → subterm_at recipe q ≡ some u
      → filter u ≡ true
      → any (λ x. filter x.0) (candidates c i ss) ≡ true
  unfolding candidates
  candidates-any filter i k [] q recipe u e b h p = unfold recipe_at in cc
  candidates-any filter i zero (s ∷ ss) q recipe u e b h p =
      any-append_left (λ x. filter x.0) (step_candidates c i s.action) (candidates c (i + 1) ss)
        (step-any filter i q s.action recipe u (unfold recipe_at in e) b h p)
  candidates-any filter i (suc k) (s ∷ ss) q recipe u e b h p =
      any-append_right (λ x. filter x.0) (step_candidates c i s.action) (candidates c (i + 1) ss)
        (candidates-any filter (i + 1) k ss q recipe u (unfold recipe_at in e) b h p)
