-- ===== src/Fuzzer/Enumeration.antt =====
-- puffin/src/fuzzer/mutations.rs, `reservoir_sample`: the order in which the loops visit the subterms.
use tlspuffin.Base.{
  ℕ, zero, suc, ◌+◌, ◌≤◌, ◌≡◌, refl, sym, ap, ◌∙◌, Bool, List, [], ◌∷◌, ◌++◌, if◌then◌else◌,
  append_assoc, append-nil, length, length-append, arith, Bool-cases, inl, inr,
}
use tlspuffin.Algebra.Term.{
  Term, Terms, variable, application, nil, cons, to_list, size, size_terms,
}
use tlspuffin.Trace.Defs.{Step, Action, input, output}
use tlspuffin.Fuzzer.Rand.{Rand}
use tlspuffin.Fuzzer.Sampling.{
  TermConstraints, TracePath, Found, Sampling, push_subterms, push_next, out_of_bounds, consider,
  visit, sample_step, sample_steps,
}

module _ {V M : Type 0} where
  -- A term and all its subterms with their positions: the term first, the last child before the
  -- first one.
  unfoldable mutual
    pub positions : Term V M → TracePath → List (Found V M)
    positions (variable v) p = (variable v, p) ∷ []
    positions (application f ts) p = (application f ts, p) ∷ positions_in ts p 0

    pub positions_in : Terms V M → TracePath → ℕ → List (Found V M)
    positions_in nil p i = []
    positions_in (cons t ts) p i = positions_in ts p (i + 1) ++ positions t (p.0, p.1 ++ i ∷ [])

  unfoldable pub stack_positions : List (Found V M) → List (Found V M)
  unfolding positions
  stack_positions [] = []
  stack_positions ((t, p) ∷ stack) = positions t p ++ stack_positions stack

  -- The subterms that are considered at one step of the trace, and in the whole trace.
  unfoldable pub step_candidates : TermConstraints → ℕ → Action V M → List (Found V M)
  unfolding positions
  step_candidates c i output = []
  step_candidates c i (input recipe) =
      if out_of_bounds c recipe then [] else positions recipe (i, [])

  unfoldable pub candidates : TermConstraints → ℕ → List (Step V M) → List (Found V M)
  unfolding step_candidates
  candidates c i [] = []
  candidates c i (step ∷ rest) = step_candidates c i step.action ++ candidates c (i + 1) rest

  mutual
    unfolding positions size

    pub length-positions : (t : Term V M) (p : TracePath) → length (positions t p) ≡ size t
    length-positions (variable v) p = refl
    length-positions (application f ts) p = omega (arith, length-positions_in ts p 0)

    length-positions_in :
        (ts : Terms V M) (p : TracePath) (i : ℕ) → length (positions_in ts p i) ≡ size_terms ts
    length-positions_in nil p i = refl
    length-positions_in (cons t ts) p i =
        length-append (positions_in ts p (i + 1)) (positions t (p.0, p.1 ++ i ∷ []))
        ∙ omega (arith, length-positions t (p.0, p.1 ++ i ∷ []), length-positions_in ts p (i + 1))

  stack_positions-push :
      (p : TracePath) (i : ℕ) (ts : Terms V M) (stack : List (Found V M))
      → stack_positions (push_subterms p i (to_list ts) stack)
        ≡ positions_in ts p i ++ stack_positions stack
  unfolding stack_positions push_subterms
  stack_positions-push p i nil stack = refl
  stack_positions-push p i (cons t ts) stack =
      stack_positions-push p (i + 1) ts ((t, (p.0, p.1 ++ i ∷ [])) ∷ stack)
      ∙ sym (append_assoc (positions_in ts p (i + 1)) (positions t (p.0, p.1 ++ i ∷ [])) _)

  -- Taking a term off the stack and pushing its children leaves what is still to visit.
  stack_positions-next :
      (t : Term V M) (p : TracePath) (stack : List (Found V M))
      → stack_positions ((t, p) ∷ stack) ≡ (t, p) ∷ stack_positions (push_next t p stack)
  unfolding stack_positions push_next
  stack_positions-next (variable v) p stack = refl
  stack_positions-next (application f ts) p stack =
      ap (◌∷◌ (application f ts, p)) (sym (stack_positions-push p 0 ts stack))

module _ {V M R : Type 0} (rng : Rand R) (filter : Term V M → Bool) where
  unfoldable pub consider_all : List (Found V M) → Sampling V M R → Sampling V M R
  consider_all [] s = s
  consider_all (x ∷ xs) s = consider_all xs (consider rng filter x s)

  pub consider_all-append :
      (xs ys : List (Found V M)) (s : Sampling V M R)
      → consider_all (xs ++ ys) s ≡ consider_all ys (consider_all xs s)
  unfolding consider_all
  consider_all-append [] ys s = refl
  consider_all-append (x ∷ xs) ys s = consider_all-append xs ys (consider rng filter x s)

  -- With a round for each subterm left, the stack loop considers them all.
  visit-consider_all :
      (fuel : ℕ) (stack : List (Found V M)) (s : Sampling V M R)
      → length (stack_positions stack) ≤ fuel
      → visit rng filter fuel stack s ≡ consider_all (stack_positions stack) s
  unfolding visit consider_all
  visit-consider_all zero [] s h = unfold stack_positions in refl
  visit-consider_all zero ((t, p) ∷ stack) s h =
      absurd (omega (arith, ap length (stack_positions-next t p stack)))
  visit-consider_all (suc fuel) [] s h = unfold stack_positions in refl
  visit-consider_all (suc fuel) ((t, p) ∷ stack) s h =
      visit-consider_all fuel (push_next t p stack) (consider rng filter (t, p) s)
        (omega (arith, ap length (stack_positions-next t p stack)))
      ∙ ap (λ l. consider_all l s) (sym (stack_positions-next t p stack))

  visit-recipe :
      (recipe : Term V M) (i : ℕ) (s : Sampling V M R)
      → visit rng filter (size recipe) ((recipe, (i, [])) ∷ []) s
        ≡ consider_all (positions recipe (i, [])) s
  visit-recipe recipe i s =
      let whole : stack_positions ((recipe, (i, [])) ∷ []) ≡ positions recipe (i, []) =
        unfold stack_positions in append-nil (positions recipe (i, [])) in
      visit-consider_all (size recipe) ((recipe, (i, [])) ∷ []) s
        (omega (arith, ap length whole, length-positions recipe (i, [])))
      ∙ ap (λ l. consider_all l s) whole

  sample_step-candidates :
      (c : TermConstraints) (i : ℕ) (a : Action V M) (s : Sampling V M R)
      → sample_step rng filter c i a s ≡ consider_all (step_candidates c i a) s
  unfolding sample_step step_candidates consider_all
  sample_step-candidates c i output s = refl
  sample_step-candidates c i (input recipe) s = elim (Bool-cases (out_of_bounds c recipe)) [
    | inl e ↦ rw e
    | inr e ↦ rw e (visit-recipe recipe i s)
  ]

  -- The loops of `reservoir_sample` over the steps and over an explicit stack do what considering a
  -- recursive enumeration of the subterms of the admissible recipes does, in that order: the size
  -- of a recipe is enough fuel for its stack.
  pub sample_steps-candidates :
      (c : TermConstraints) (i : ℕ) (ss : List (Step V M)) (s : Sampling V M R)
      → sample_steps rng filter c i ss s ≡ consider_all (candidates c i ss) s
  unfolding sample_steps candidates
  sample_steps-candidates c i [] s = unfold consider_all in refl
  sample_steps-candidates c i (step ∷ rest) s =
      sample_steps-candidates c (i + 1) rest (sample_step rng filter c i step.action s)
      ∙ ap (consider_all (candidates c (i + 1) rest)) (sample_step-candidates c i step.action s)
      ∙ sym (consider_all-append (step_candidates c i step.action) (candidates c (i + 1) rest) s)
