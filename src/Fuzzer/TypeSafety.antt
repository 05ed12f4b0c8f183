-- ===== src/Fuzzer/TypeSafety.antt =====
-- puffin/src/fuzzer/mutations.rs, REPLACE-REUSE and REMOVE-AND-LIFT: the types of the recipes.
use tlspuffin.Base.{
  ◌≡◌, refl, sym, ap, subst, true, [], ◌∷◌, ◌++◌, Option, none, some, swap_remove, swap_remove-push,
  set,
}
use tlspuffin.Algebra.Term.{Term, variable, application, to_list, of_list, get_type_shape}
use tlspuffin.Algebra.Typing.{WellTyped, Fits, SameType, type_eq_iff}
use tlspuffin.Algebra.Path.{Mut}
use tlspuffin.Algebra.Subterms.{Grand, same_shape, filter_grand_subterms}
use tlspuffin.Trace.Defs.{Trace, TraceTyped}
use tlspuffin.Fuzzer.Rand.{Rand}
use tlspuffin.Fuzzer.Sampling.{TermConstraints}
use tlspuffin.Fuzzer.Choose.{choose_item, choose_term, choose_term_filtered_mut}
use tlspuffin.Fuzzer.Places.{TypedPlace, choose_item-All}
use tlspuffin.Fuzzer.Targets.{choose_term_filtered_mut-place, choose_term-WellTyped}
use tlspuffin.Fuzzer.Lifting.{
  Grown, Fits-All, Fits-set, filter_grand_subterms-Grown, get_elem?-some_lt,
}
use tlspuffin.Fuzzer.Mutators.{
  Outcome, mutated, skipped, panicked, can_lift, lift_in, remove_and_lift_mutate,
  replace_reuse_mutate,
}

-- The mutation did not panic, and the trace that it leaves has the property.
abbrev pub Leaves : {V M R : Type 0} → (Trace V M → Type 0) → Outcome V M R → Type 0
Leaves P (mutated tr rand) = P tr
Leaves P (skipped tr rand) = P tr
Leaves P panicked = ⊥

module _ {V M : Type 0} where
  pub same_shape→SameType :
      (a b : Term V M) → same_shape a b ≡ true → SameType (get_type_shape a) (get_type_shape b)
  unfolding same_shape
  same_shape→SameType a b e = (type_eq_iff (get_type_shape a) (get_type_shape b)).0 e

module _ {V M R : Type 0} (rng : Rand R) where
  -- A step of a mutator: nothing is chosen and the trace is skipped, or the mutation goes on.
  pub Leaves-step :
      {A : Type 0} (P : Trace V M → Type 0) (o : Option A) (nothing : Outcome V M R)
      (next : A → Outcome V M R)
      → Leaves P nothing
      → ((a : A) → o ≡ some a → Leaves P (next a))
      → Leaves P (elim o [ none ↦ nothing | some a ↦ next a ])
  Leaves-step P none nothing next h k = h
  Leaves-step P (some a) nothing next h k = k a refl

  -- On a trace whose recipes are all well-typed, REPLACE-REUSE does not panic and leaves a trace
  -- whose recipes are all well-typed.
  pub replace_reuse_mutate-TraceTyped :
      (c : TermConstraints) (tr : Trace V M) (rand : R)
      → TraceTyped tr
      → Leaves TraceTyped (replace_reuse_mutate rng c tr rand)
  unfolding replace_reuse_mutate
  replace_reuse_mutate-TraceTyped c tr rand typed =
      Leaves-step TraceTyped (choose_term rng tr c rand).0 _ _ typed λ replacement chosen.
        Leaves-step TraceTyped
          (choose_term_filtered_mut rng tr (λ term. same_shape term replacement) c
            (choose_term rng tr c rand).1).0
          _ _ typed
          λ r found.
            let (place, same) =
              choose_term_filtered_mut-place rng (λ term. same_shape term replacement) tr c
                (choose_term rng tr c rand).1 r typed found in
            place.write_typed replacement (
              choose_term-WellTyped rng tr c rand replacement typed chosen,
              sym (same_shape→SameType r.target replacement same),
            )

  lift_in-TraceTyped :
      (tr : Trace V M) (r : Mut V M (Trace V M)) (t : Term V M) (rand : R)
      → TraceTyped tr
      → TypedPlace TraceTyped r
      → r.target ≡ t
      → Leaves TraceTyped (lift_in rng r t tr rand)
  unfolding lift_in
  lift_in-TraceTyped tr r (variable v) rand typed place e = typed
  lift_in-TraceTyped tr r (application f ts) rand typed place e =
      Leaves-step TraceTyped
        (choose_item rng (filter_grand_subterms (to_list ts) same_shape) rand).0 _ _ typed
        λ g chosen. lifted g (grown g chosen)
    where
      fits : Fits ts f.shape.argument_types
      fits = unfold WellTyped in subst WellTyped e place.target_typed

      grown :
          (g : Grand V M)
          → (choose_item rng (filter_grand_subterms (to_list ts) same_shape) rand).0 ≡ some g
          → Grown same_shape (to_list ts) g
      grown g chosen =
          choose_item-All rng (Grown same_shape (to_list ts))
            (filter_grand_subterms (to_list ts) same_shape) rand g
            (filter_grand_subterms-Grown same_shape (to_list ts)
              (Fits-All ts f.shape.argument_types fits))
            chosen

      lifted :
          (g : Grand V M)
          → Grown same_shape (to_list ts) g
          → Leaves TraceTyped (
              let result : Outcome V M R =
                elim (swap_remove (to_list ts ++ g.grand_subterm ∷ []) g.index) [
                  | none ↦ panicked
                  | some us ↦
                      mutated
                        (r.write (application f (of_list us)))
                        (choose_item rng (filter_grand_subterms (to_list ts) same_shape) rand).1
                ] in
              result)
      lifted g h =
          rw
            (swap_remove-push (to_list ts) g.index g.grand_subterm
              (get_elem?-some_lt (to_list ts) g.index h.parent_at))
            (place.write_typed (application f (of_list (set (to_list ts) g.index g.grand_subterm)))
              (
                unfold WellTyped in
                    Fits-set ts f.shape.argument_types g.index g.parent g.grand_subterm fits
                      h.parent_at
                      (h.typed, sym (same_shape→SameType g.parent g.grand_subterm h.passes)),
                ap (λ u. (get_type_shape u).inner_type_id) (sym e),
              ))

  -- On a trace whose recipes are all well-typed, REMOVE-AND-LIFT does not panic and leaves a trace
  -- whose recipes are all well-typed.
  pub remove_and_lift_mutate-TraceTyped :
      (c : TermConstraints) (tr : Trace V M) (rand : R)
      → TraceTyped tr
      → Leaves TraceTyped (remove_and_lift_mutate rng c tr rand)
  unfolding remove_and_lift_mutate
  remove_and_lift_mutate-TraceTyped c tr rand typed =
      Leaves-step TraceTyped (choose_term_filtered_mut rng tr can_lift c rand).0 _ _ typed
        λ r found.
          lift_in-TraceTyped tr r r.target (choose_term_filtered_mut rng tr can_lift c rand).1 typed
            (choose_term_filtered_mut-place rng can_lift tr c rand r typed found).0 refl
