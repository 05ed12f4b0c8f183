-- ===== src/Fuzzer/Choose.antt =====
-- puffin/src/fuzzer/mutations.rs, `util`: random choices of list items and of terms in a trace, and
-- the mutable reference to the term at a path of the trace.
use tlspuffin.Base.{
  ℕ, zero, suc, Bool, true, List, [], ◌∷◌, Option, none, some, length, keep, get_elem?, ◌==◌,
  if◌then◌else◌, and_then,
}
use tlspuffin.Algebra.Term.{Term}
use tlspuffin.Algebra.Path.{Mut, TermPath, within, find_term_by_term_path_mut}
use tlspuffin.Trace.Defs.{Trace, Step, Action, input, output, steps, with_steps}
use tlspuffin.Fuzzer.Rand.{Rand}
use tlspuffin.Fuzzer.Sampling.{TermConstraints, TracePath, Found, reservoir_sample}

module _ {R : Type 0} (rng : Rand R) where
  -- `Choosable::choose` and `choose_iter`.
  unfoldable pub choose_item {ℓ} : {A : Type ℓ} → List A → R → Option A × R
  choose_item xs rand =
      let (index, rand') = rng.below (length xs) rand in
      if length xs == 0 then (none, rand) else (get_elem? xs index, rand')

  unfoldable pub choose_filtered {ℓ} : {A : Type ℓ} → List A → (A → Bool) → R → Option A × R
  unfolding choose_item
  choose_filtered xs filter rand = choose_item (keep filter xs) rand

module _ {V M : Type 0} where
  unfoldable pub find_in_action : Action V M → TermPath → Option (Mut V M (Action V M))
  find_in_action output p = none
  find_in_action (input recipe) p = within input (find_term_by_term_path_mut recipe p)

  unfoldable pub find_in_steps : List (Step V M) → ℕ → TermPath → Option (Mut V M (List (Step V M)))
  unfolding find_in_action
  find_in_steps [] i p = none
  find_in_steps (s ∷ ss) zero p =
      within (λ a. record s { action = a } ∷ ss) (find_in_action s.action p)
  find_in_steps (s ∷ ss) (suc i) p = within (λ rest. s ∷ rest) (find_in_steps ss i p)

  unfoldable pub find_term_mut : Trace V M → TracePath → Option (Mut V M (Trace V M))
  unfolding find_in_steps
  find_term_mut tr (i, p) = within (with_steps tr) (find_in_steps (steps tr) i p)

module _ {V M R : Type 0} (rng : Rand R) where
  unfoldable pub choose : Trace V M → TermConstraints → R → Option (Found V M) × R
  choose tr c rand = reservoir_sample rng (λ term. true) tr c rand

  unfoldable pub choose_term : Trace V M → TermConstraints → R → Option (Term V M) × R
  choose_term tr c rand =
      let (found, rand') = reservoir_sample rng (λ term. true) tr c rand in
      (and_then found (λ x. some x.0), rand')

  unfoldable pub choose_term_path_filtered :
      Trace V M → (Term V M → Bool) → TermConstraints → R → Option TracePath × R
  choose_term_path_filtered tr filter c rand =
      let (found, rand') = reservoir_sample rng filter tr c rand in
      (and_then found (λ x. some x.1), rand')

  unfoldable pub choose_term_path : Trace V M → TermConstraints → R → Option TracePath × R
  unfolding choose_term_path_filtered
  choose_term_path tr c rand = choose_term_path_filtered tr (λ term. true) c rand

  unfoldable pub choose_term_filtered_mut :
      Trace V M → (Term V M → Bool) → TermConstraints → R → Option (Mut V M (Trace V M)) × R
  unfolding choose_term_path_filtered
  choose_term_filtered_mut tr filter c rand =
      let (path, rand') = choose_term_path_filtered tr filter c rand in
      (and_then path (find_term_mut tr), rand')

  unfoldable pub choose_term_mut :
      Trace V M → TermConstraints → R → Option (Mut V M (Trace V M)) × R
  unfolding choose_term_path_filtered
  choose_term_mut tr c rand =
      let (path, rand') = choose_term_path_filtered tr (λ term. true) c rand in
      (and_then path (find_term_mut tr), rand')
