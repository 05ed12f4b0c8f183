-- ===== src/Fuzzer/SymbolSafety.antt =====
-- puffin/src/fuzzer/mutations.rs, REPLACE-MATCH and GENERATE: the types of the recipes.
use tlspuffin.Base.{
  ℕ, ◌+◌, ◌%◌, ◌^◌, ◌<◌, ◌≡◌, refl, sym, ap, ◌∙◌, subst, Bool, true, false, not, ◌&&◌, List, [],
  ◌∷◌, Option, none, some, length, ◌==◌, ==_iff, arith, All, Bool-cases, Option-step, inl, inr,
}
use tlspuffin.Algebra.Shape.{TypeShape, type_eq, types_eq, shape_eq, arity, is_constant}
use tlspuffin.Algebra.Term.{Term, Terms, variable, application, nil, get_type_shape}
use tlspuffin.Algebra.Typing.{WellTyped, Fits, HasType, type_eq_iff, types_eq-Fits}
use tlspuffin.Algebra.Path.{Mut}
use tlspuffin.Algebra.Subterms.{same_shape}
use tlspuffin.Algebra.Signature.{Signature, FunctionDefinition}
use tlspuffin.Trace.Defs.{Trace, TraceTyped}
use tlspuffin.Fuzzer.Rand.{Rand}
use tlspuffin.Fuzzer.Sampling.{TermConstraints}
use tlspuffin.Fuzzer.Choose.{choose_filtered, choose_term_filtered_mut, choose_term_mut}
use tlspuffin.Fuzzer.Places.{TypedPlace, choose_filtered-All}
use tlspuffin.Fuzzer.Targets.{choose_term_filtered_mut-place}
use tlspuffin.Fuzzer.Zoo.{generate_zoo}
use tlspuffin.Fuzzer.ZooTerms.{HoldsSome, IsGrouped, IsZooTerm}
use tlspuffin.Fuzzer.ZooLaws.{generate_zoo-IsZooTerm}
use tlspuffin.Fuzzer.TypeSafety.{Leaves, Leaves-step, same_shape→SameType}
use tlspuffin.Fuzzer.Mutators.{
  Outcome, replace_match_in, replace_match_mutate, GenerateMutator, next_zoo, generate_in,
  generate_mutate,
}

-- No function symbol has 2^16 arguments or more. (`dynamic_fn!` is invoked for up to nine.)
abbrev pub FewArguments : {V : Type 0} → List (FunctionDefinition V) → Type 0
FewArguments ds = All (λ d. length d.shape.argument_types < 2 ^ 16) ds

and_parts : (a b : Bool) → (a && b) ≡ true → (a ≡ true) × (b ≡ true)
and_parts a b h = ground arith

no_arguments :
    (types : List TypeShape)
    → length types < 2 ^ 16
    → (length types % 2 ^ 16 == 0) ≡ true
    → types ≡ []
no_arguments [] h e = refl
no_arguments (t ∷ ts) h e =
    let zero_mod = (==_iff (length (t ∷ ts) % 2 ^ 16) 0).0 e in absurd (omega arith)

constant-HasType :
    (V M : Type 0) (d : FunctionDefinition V) (typ : TypeShape)
    → length d.shape.argument_types < 2 ^ 16
    → (type_eq typ d.shape.return_type && is_constant d.shape) ≡ true
    → HasType {V = V} {M = M} (application d nil) typ
unfolding is_constant arity WellTyped
constant-HasType V M d typ few e =
    let (same, constant) = and_parts (type_eq typ d.shape.return_type) (is_constant d.shape) e in
    (
      subst (Fits {V = V} {M = M} nil) (sym (no_arguments d.shape.argument_types few constant)) tt,
      sym ((type_eq_iff typ d.shape.return_type).0 same),
    )

module _ {V M R : Type 0} (rng : Rand R) (signature : Signature V) where
  symbol-HasType :
      (f d : FunctionDefinition V) (ts : Terms V M)
      → WellTyped (application f ts)
      → (not (shape_eq f.shape d.shape)
          && (type_eq f.shape.return_type d.shape.return_type
              && types_eq f.shape.argument_types d.shape.argument_types))
        ≡ true
      → HasType (application d ts) f.shape.return_type
  symbol-HasType f d ts h e =
      let (_, shapes) = and_parts (not (shape_eq f.shape d.shape)) _ e in
      let (returns, arguments) =
        and_parts (type_eq f.shape.return_type d.shape.return_type) _ shapes in
      (
        unfold WellTyped in
            types_eq-Fits ts f.shape.argument_types d.shape.argument_types arguments
              (unfold WellTyped in h),
        sym ((type_eq_iff f.shape.return_type d.shape.return_type).0 returns),
      )

  replace_match_in-TraceTyped :
      (tr : Trace V M) (r : Mut V M (Trace V M)) (t : Term V M) (rand : R)
      → FewArguments signature.functions
      → TraceTyped tr
      → TypedPlace TraceTyped r
      → r.target ≡ t
      → Leaves TraceTyped (replace_match_in rng signature r t tr rand)
  unfolding replace_match_in
  replace_match_in-TraceTyped tr r (variable v) rand few typed place e =
      Leaves-step rng TraceTyped (choose_filtered rng signature.functions _ rand).0 _ _ typed
        λ d chosen.
          let (small, passed) =
            choose_filtered-All rng (λ x. length x.shape.argument_types < 2 ^ 16)
              (λ x. type_eq v.typ x.shape.return_type && is_constant x.shape) signature.functions
              rand d few chosen in
          let has = constant-HasType V M d v.typ small passed in
          place.write_typed (application d nil)
            (has.0, has.1 ∙ ap (λ u. (get_type_shape u).inner_type_id) (sym e))
  replace_match_in-TraceTyped tr r (application f ts) rand few typed place e =
      Leaves-step rng TraceTyped (choose_filtered rng signature.functions _ rand).0 _ _ typed
        λ d chosen.
          let (small, passed) =
            choose_filtered-All rng (λ x. length x.shape.argument_types < 2 ^ 16)
              (λ x.
                not (shape_eq f.shape x.shape)
                && (type_eq f.shape.return_type x.shape.return_type
                    && types_eq f.shape.argument_types x.shape.argument_types))
              signature.functions rand d few chosen in
          let has = symbol-HasType f d ts (subst WellTyped e place.target_typed) passed in
          place.write_typed (application d ts)
            (has.0, has.1 ∙ ap (λ u. (get_type_shape u).inner_type_id) (sym e))

  -- On a trace whose recipes are all well-typed, and a signature without function symbols of 2^16
  -- or more arguments, REPLACE-MATCH does not panic and leaves a trace whose recipes are all
  -- well-typed.
  pub replace_match_mutate-TraceTyped :
      (c : TermConstraints) (tr : Trace V M) (rand : R)
      → FewArguments signature.functions
      → TraceTyped tr
      → Leaves TraceTyped (replace_match_mutate rng signature c tr rand)
  unfolding replace_match_mutate choose_term_mut
  replace_match_mutate-TraceTyped c tr rand few typed =
      Leaves-step rng TraceTyped (choose_term_mut rng tr c rand).0 _ _ typed λ r found.
        replace_match_in-TraceTyped tr r r.target (choose_term_mut rng tr c rand).1 few typed
          (choose_term_filtered_mut-place rng (λ term. true) tr c rand r typed
            (unfold choose_term_filtered_mut in found)).0
          refl

-- The mutator's zoo, if it has one, holds zoo terms, and its signature is grouped.
pub record IsStocked {V M : Type 0} (m : GenerateMutator V M) : Type 0 where
  pub zoo_typed : HoldsSome (All (IsZooTerm {V = V} {M = M})) m.zoo
  pub grouped : IsGrouped m.signature.functions_by_typ

module _ {V M R : Type 0} (rng : Rand R) where
  next_zoo-IsZooTerm :
      (m : GenerateMutator V M) (counter : ℕ) (rand : R)
      → IsStocked m
      → All (IsZooTerm {V = V} {M = M}) (next_zoo rng m counter rand).0
  unfolding next_zoo
  next_zoo-IsZooTerm m counter rand h = elim (Bool-cases (counter % m.refresh_zoo_after == 0)) [
    | inl e ↦ rw e (generate_zoo-IsZooTerm M rng m.signature h.grouped rand)
    | inr e ↦ rw e (kept m.zoo h.zoo_typed)
  ]
    where
      kept :
          (zoo : Option (List (Term V M)))
          → HoldsSome (All (IsZooTerm {V = V} {M = M})) zoo
          → All (IsZooTerm {V = V} {M = M}) (
              let z : List (Term V M) × R = elim zoo [
                | none ↦ generate_zoo rng m.signature rand
                | some terms ↦ (terms, rand)
              ] in
              z.0)
      kept none k = generate_zoo-IsZooTerm M rng m.signature h.grouped rand
      kept (some terms) k = k

  abbrev Safe : GenerateMutator V M × Outcome V M R → Type 0
  Safe result = IsStocked result.0 × Leaves TraceTyped result.1

  generate_in-Safe :
      (m : GenerateMutator V M) (r : Mut V M (Trace V M)) (tr : Trace V M) (rand : R)
      → 0 < m.refresh_zoo_after
      → IsStocked m
      → TraceTyped tr
      → TypedPlace TraceTyped r
      → Safe (generate_in rng m r tr rand)
  unfolding generate_in
  generate_in-Safe m r tr rand positive stocked typed place =
      let counter = (m.mutation_counter + 1) % 2 ^ 64 in
      let terms = next_zoo-IsZooTerm m counter rand stocked in
      let zoo = (next_zoo rng m counter rand).0 in
      let m' : GenerateMutator V M = record m { mutation_counter = counter; zoo = some zoo } in
      let stocked' : IsStocked m' = record { zoo_typed = terms; grouped = stocked.grouped } in
      let nonzero : (m.refresh_zoo_after == 0) ≡ false = ground arith in
      rw nonzero (
        Option-step Safe
          (choose_filtered rng zoo (λ term. same_shape r.target term)
            (next_zoo rng m counter rand).1).0
          _ _ (stocked', typed)
          λ t chosen.
            let (made, same) =
              choose_filtered-All rng (IsZooTerm {V = V} {M = M}) (λ term. same_shape r.target term)
                zoo (next_zoo rng m counter rand).1 t terms chosen in
            (stocked', place.write_typed t (made.0, sym (same_shape→SameType r.target t same))))

  -- On a trace whose recipes are all well-typed, with a zoo of zoo terms or none, a signature
  -- grouped by return type and a refresh interval that is not zero, GENERATE does not panic, leaves
  -- a trace whose recipes are all well-typed, and keeps the zoo one of zoo terms.
  pub generate_mutate-TraceTyped :
      (m : GenerateMutator V M) (tr : Trace V M) (rand : R)
      → 0 < m.refresh_zoo_after
      → IsStocked m
      → TraceTyped tr
      → IsStocked (generate_mutate rng m tr rand).0
        × Leaves TraceTyped (generate_mutate rng m tr rand).1
  unfolding generate_mutate choose_term_mut
  generate_mutate-TraceTyped m tr rand positive stocked typed =
      Option-step Safe (choose_term_mut rng tr m.constraints rand).0 _ _ (stocked, typed)
        λ r found.
          generate_in-Safe m r tr (choose_term_mut rng tr m.constraints rand).1 positive stocked
            typed
            (choose_term_filtered_mut-place rng (λ term. true) tr m.constraints rand r typed
              (unfold choose_term_filtered_mut in found)).0
