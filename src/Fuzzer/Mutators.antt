-- ===== src/Fuzzer/Mutators.antt =====
-- puffin/src/fuzzer/mutations.rs: the seven trace mutators, `libafl::mutators::Mutator::mutate`.
use tlspuffin.Base.{
  ℕ, ◌+◌, ◌-◌, ◌%◌, ◌^◌, Bool, false, not, ◌&&◌, List, [], ◌∷◌, ◌++◌, Option, none, some, length,
  get_elem?, ◌==◌, leb, if◌then◌else◌, swap_remove, remove, insert, is_some,
}
use tlspuffin.Algebra.Shape.{type_eq, types_eq, shape_eq, is_constant}
use tlspuffin.Algebra.Term.{Term, variable, application, nil, to_list, of_list}
use tlspuffin.Algebra.Path.{Mut}
use tlspuffin.Algebra.Subterms.{
  same_shape, find_subterm, find_subterm_same_shape, filter_grand_subterms,
}
use tlspuffin.Algebra.Signature.{Signature}
use tlspuffin.Trace.Defs.{Trace, steps, with_steps}
use tlspuffin.Fuzzer.Rand.{Rand}
use tlspuffin.Fuzzer.Sampling.{TermConstraints, TracePath}
use tlspuffin.Fuzzer.Choose.{
  choose_item, choose_filtered, choose, choose_term, choose_term_path_filtered, choose_term_mut,
  choose_term_filtered_mut, find_term_mut,
}
use tlspuffin.Fuzzer.Zoo.{generate_zoo}

-- The result of a mutation with the trace and the generator that it leaves, or a panic.
pub data Outcome (V M R : Type 0) : Type 0 where
  mutated : Trace V M → R → Outcome V M R
  skipped : Trace V M → R → Outcome V M R
  panicked : Outcome V M R

module _ {V M : Type 0} where
  -- The two writes of a swap: the second one only if the first path still leads to a term.
  unfoldable pub swap_terms : Trace V M → Term V M → TracePath → Mut V M (Trace V M) → Trace V M
  swap_terms tr term_a path_a term_b =
      let tr' = term_b.write term_a in
      elim (find_term_mut tr' path_a) [ none ↦ tr' | some trace_a ↦ trace_a.write term_b.target ]

  -- A term with a child that has a child of its own type.
  unfoldable pub can_lift : Term V M → Bool
  unfolding find_subterm find_subterm_same_shape
  can_lift (variable v) = false
  can_lift (application f subterms) = is_some (find_subterm (to_list subterms) liftable)
    where
      liftable : Term V M → Bool
      liftable (variable v) = false
      liftable (application g grand_subterms) =
          is_some (find_subterm_same_shape (to_list grand_subterms) (application g grand_subterms))

module _ {V M R : Type 0} (rng : Rand R) where
  unfoldable pub swap_mutate : TermConstraints → Trace V M → R → Outcome V M R
  unfolding swap_terms
  swap_mutate c tr rand =
      let (found, rand1) = choose rng tr c rand in
      elim found [
        | none ↦ skipped tr rand1
        | some (term_a, path_a) ↦
            let (path, rand2) =
              choose_term_path_filtered rng tr (λ term. same_shape term term_a) c rand1 in
            elim path [
              | none ↦ skipped tr rand2
              | some path_b ↦ elim (find_term_mut tr path_b) [
                | none ↦ skipped tr rand2
                | some term_b ↦ mutated (swap_terms tr term_a path_a term_b) rand2
              ]
            ]
      ]

  unfoldable pub lift_in : Mut V M (Trace V M) → Term V M → Trace V M → R → Outcome V M R
  lift_in to_mutate (variable v) tr rand = skipped tr rand
  lift_in to_mutate (application f subterms) tr rand =
      let (chosen, rand') =
        choose_item rng (filter_grand_subterms (to_list subterms) same_shape) rand in
      elim chosen [
        | none ↦ skipped tr rand'
        | some g ↦ elim (swap_remove (to_list subterms ++ g.grand_subterm ∷ []) g.index) [
          | none ↦ panicked
          | some new_subterms ↦
              mutated (to_mutate.write (application f (of_list new_subterms))) rand'
        ]
      ]

  unfoldable pub remove_and_lift_mutate : TermConstraints → Trace V M → R → Outcome V M R
  unfolding lift_in
  remove_and_lift_mutate c tr rand =
      let (found, rand1) = choose_term_filtered_mut rng tr can_lift c rand in
      elim found [
        | none ↦ skipped tr rand1
        | some to_mutate ↦ lift_in to_mutate to_mutate.target tr rand1
      ]

  unfoldable pub replace_match_in :
      Signature V → Mut V M (Trace V M) → Term V M → Trace V M → R → Outcome V M R
  replace_match_in signature to_mutate (variable v) tr rand =
      let (chosen, rand') =
        choose_filtered rng signature.functions
          (λ d. type_eq v.typ d.shape.return_type && is_constant d.shape) rand in
      elim chosen [
        | none ↦ skipped tr rand'
        | some d ↦ mutated (to_mutate.write (application d nil)) rand'
      ]
  replace_match_in signature to_mutate (application func subterms) tr rand =
      let (chosen, rand') =
        choose_filtered rng signature.functions
          (λ d.
            not (shape_eq func.shape d.shape)
            && (type_eq func.shape.return_type d.shape.return_type
                && types_eq func.shape.argument_types d.shape.argument_types))
          rand in
      elim chosen [
        | none ↦ skipped tr rand'
        | some d ↦ mutated (to_mutate.write (application d subterms)) rand'
      ]

  unfoldable pub replace_match_mutate :
      Signature V → TermConstraints → Trace V M → R → Outcome V M R
  unfolding replace_match_in
  replace_match_mutate signature c tr rand =
      let (found, rand1) = choose_term_mut rng tr c rand in
      elim found [
        | none ↦ skipped tr rand1
        | some to_mutate ↦ replace_match_in signature to_mutate to_mutate.target tr rand1
      ]

  unfoldable pub replace_reuse_mutate : TermConstraints → Trace V M → R → Outcome V M R
  replace_reuse_mutate c tr rand =
      let (found, rand1) = choose_term rng tr c rand in
      elim found [
        | none ↦ skipped tr rand1
        | some replacement ↦
            let (place, rand2) =
              choose_term_filtered_mut rng tr (λ term. same_shape term replacement) c rand1 in
            elim place [
              | none ↦ skipped tr rand2
              | some to_replace ↦ mutated (to_replace.write replacement) rand2
            ]
      ]

  unfoldable pub skip_mutate : ℕ → Trace V M → R → Outcome V M R
  skip_mutate min_trace_length tr rand =
      let len = length (steps tr) in
      let (remove_index, rand') = rng.between 0 (len - 1) rand in
      if leb len min_trace_length
      then skipped tr rand
      else if len == 0
      then skipped tr rand
      else elim (remove (steps tr) remove_index) [
        | none ↦ panicked
        | some new_steps ↦ mutated (with_steps tr new_steps) rand'
      ]

  unfoldable pub repeat_mutate : ℕ → Trace V M → R → Outcome V M R
  repeat_mutate max_trace_length tr rand =
      let len = length (steps tr) in
      let (insert_index, rand1) = rng.between 0 len rand in
      let (step_index, rand2) = rng.choose_index len rand1 in
      if leb max_trace_length len
      then skipped tr rand
      else if len == 0
      then skipped tr rand
      else elim (get_elem? (steps tr) step_index) [
        | none ↦ panicked
        | some step ↦ elim (insert (steps tr) insert_index step) [
          | none ↦ panicked
          | some new_steps ↦ mutated (with_steps tr new_steps) rand2
        ]
      ]

-- The state of the generating mutator: a u64 counter and the zoo, made at its first use.
pub record GenerateMutator (V M : Type 0) : Type 0 where
  pub mutation_counter : ℕ
  pub refresh_zoo_after : ℕ
  pub constraints : TermConstraints
  pub zoo : Option (List (Term V M))
  pub signature : Signature V

module _ {V M R : Type 0} (rng : Rand R) where
  unfoldable pub next_zoo : GenerateMutator V M → ℕ → R → List (Term V M) × R
  next_zoo m counter rand =
      if counter % m.refresh_zoo_after == 0
      then generate_zoo rng m.signature rand
      else elim m.zoo [ none ↦ generate_zoo rng m.signature rand | some terms ↦ (terms, rand) ]

  -- The replacement of the chosen term. The remainder by a refresh interval of zero panics.
  unfoldable pub generate_in :
      GenerateMutator V M
      → Mut V M (Trace V M)
      → Trace V M
      → R
      → GenerateMutator V M × Outcome V M R
  unfolding next_zoo
  generate_in m to_mutate tr rand =
      let counter = (m.mutation_counter + 1) % 2 ^ 64 in
      let (terms, rand2) = next_zoo m counter rand in
      let m' = record m { mutation_counter = counter; zoo = some terms } in
      let (chosen, rand3) =
        choose_filtered rng terms (λ term. same_shape to_mutate.target term) rand2 in
      if m.refresh_zoo_after == 0
      then (record m { mutation_counter = counter }, panicked)
      else elim chosen [
        | none ↦ (m', skipped tr rand3)
        | some term ↦ (m', mutated (to_mutate.write term) rand3)
      ]

  unfoldable pub generate_mutate :
      GenerateMutator V M → Trace V M → R → GenerateMutator V M × Outcome V M R
  unfolding generate_in
  generate_mutate m tr rand =
      let (found, rand1) = choose_term_mut rng tr m.constraints rand in
      elim found [
        | none ↦ (m, skipped tr rand1)
        | some to_mutate ↦ generate_in m to_mutate tr rand1
      ]
