-- ===== src/Fuzzer/Sampling.antt =====
-- puffin/src/fuzzer/mutations.rs, `util`: reservoir sampling over all subterms of all recipes.
-- The explicit stack is a list with its top at the head. The loop over the stack takes as fuel the
-- size of the recipe, the number of its subterms: each round takes one subterm off the stack.
use tlspuffin.Base.{
  ℕ, zero, suc, ◌+◌, Bool, ◌||◌, List, [], ◌∷◌, ◌++◌, Option, none, some, ◌==◌, leb, if◌then◌else◌,
}
use tlspuffin.Algebra.Term.{Term, variable, application, to_list, size}
use tlspuffin.Algebra.Path.{TermPath}
use tlspuffin.Trace.Defs.{Trace, Step, Action, input, output, steps}
use tlspuffin.Fuzzer.Rand.{Rand}

pub record TermConstraints : Type 0 where
  pub min_term_size : ℕ
  pub max_term_size : ℕ

unfoldable pub default_constraints : TermConstraints
default_constraints = record { min_term_size = 0; max_term_size = 9000 }

-- The index of a step and a position in its recipe.
abbrev pub TracePath : Type 0
TracePath = ℕ × TermPath

abbrev pub Found : Type 0 → Type 0 → Type 0
Found V M = Term V M × TracePath

-- The variables of the sampling loop.
pub record Sampling (V M R : Type 0) : Type 0 where
  pub reservoir : Option (Found V M)
  pub visited : ℕ
  pub rand : R

module _ {V M : Type 0} where
  unfoldable pub push_subterms :
      TracePath → ℕ → List (Term V M) → List (Found V M) → List (Found V M)
  push_subterms path i [] stack = stack
  push_subterms path i (t ∷ ts) stack =
      push_subterms path (i + 1) ts ((t, (path.0, path.1 ++ i ∷ [])) ∷ stack)

  unfoldable pub push_next : Term V M → TracePath → List (Found V M) → List (Found V M)
  unfolding push_subterms
  push_next (variable v) path stack = stack
  push_next (application f ts) path stack = push_subterms path 0 (to_list ts) stack

  unfoldable pub out_of_bounds : TermConstraints → Term V M → Bool
  out_of_bounds c term = leb (size term) c.min_term_size || leb c.max_term_size (size term)

module _ {V M R : Type 0} (rng : Rand R) (filter : Term V M → Bool) where
  -- One visited term in the sampling.
  unfoldable pub consider : Found V M → Sampling V M R → Sampling V M R
  consider (term, path) s =
      let visited = s.visited + 1 in
      let drawn = rng.between 1 visited s.rand in
      if filter term
      then (elim s.reservoir [
        | none ↦ record s { reservoir = some (term, path); visited = visited }
        | some old ↦ record {
          reservoir = if drawn.0 == 1 then some (term, path) else some old;
          visited = visited;
          rand = drawn.1;
        }
      ])
      else s

  -- The `while let Some(…) = stack.pop()` loop.
  unfoldable pub visit : ℕ → List (Found V M) → Sampling V M R → Sampling V M R
  unfolding consider push_next
  visit zero stack s = s
  visit (suc fuel) [] s = s
  visit (suc fuel) ((term, path) ∷ stack) s =
      visit fuel (push_next term path stack) (consider (term, path) s)

  unfoldable pub sample_step : TermConstraints → ℕ → Action V M → Sampling V M R → Sampling V M R
  unfolding visit out_of_bounds
  sample_step c i output s = s
  sample_step c i (input recipe) s =
      if out_of_bounds c recipe then s else visit (size recipe) ((recipe, (i, [])) ∷ []) s

  unfoldable pub sample_steps :
      TermConstraints → ℕ → List (Step V M) → Sampling V M R → Sampling V M R
  unfolding sample_step
  sample_steps c i [] s = s
  sample_steps c i (step ∷ rest) s = sample_steps c (i + 1) rest (sample_step c i step.action s)

  unfoldable pub reservoir_sample : Trace V M → TermConstraints → R → Option (Found V M) × R
  unfolding sample_steps
  reservoir_sample tr c rand =
      let s = sample_steps c 0 (steps tr) (record { reservoir = none; visited = 0; rand = rand }) in
      (s.reservoir, s.rand)
