-- ===== src/Fuzzer/Places.antt =====
-- What the random choices of puffin/src/fuzzer/mutations.rs, `util`, return: items of the list that
-- pass the filter, and references to terms of the trace.
use tlspuffin.Base.{
  ℕ, zero, suc, ◌≡◌, subst, Bool, true, List, [], ◌∷◌, some, length, keep, ◌==◌, All, All-get_elem?,
  Bool-cases, inl, inr,
}
use tlspuffin.Algebra.Term.{Term, get_type_shape}
use tlspuffin.Algebra.Typing.{WellTyped, HasType}
use tlspuffin.Algebra.Path.{
  Mut, TermPath, find_term_by_term_path_mut, within-eq-some, find-PointsTo,
}
use tlspuffin.Algebra.Reference.{target-WellTyped, write-WellTyped}
use tlspuffin.Trace.Defs.{
  Trace, Step, Action, input, output, with_steps, StepTyped, TraceTyped, of_parts,
}
use tlspuffin.Fuzzer.Rand.{Rand}
use tlspuffin.Fuzzer.Sampling.{TracePath}
use tlspuffin.Fuzzer.Choose.{
  choose_item, choose_filtered, find_in_action, find_in_steps, find_term_mut,
}

module _ {A : Type 0} where
  pub keep-All :
      (P : A → Type 0) (p : A → Bool) (xs : List A)
      → All P xs
      → All (λ x. P x × (p x ≡ true)) (keep p xs)
  keep-All P p [] h = tt
  keep-All P p (x ∷ xs) h = elim (Bool-cases (p x)) [
    | inl e ↦ rw e ((h.0, e), keep-All P p xs h.1)
    | inr e ↦ rw e (keep-All P p xs h.1)
  ]

  -- A chosen item has every property that all items have.
  pub choose_item-All :
      {R : Type 0} (rng : Rand R) (P : A → Type 0) (xs : List A) (rand : R) (x : A)
      → All P xs
      → (choose_item rng xs rand).0 ≡ some x
      → P x
  unfolding choose_item
  choose_item-All rng P xs rand x h e = elim (Bool-cases (length xs == 0)) [
    | inl empty ↦ absurd (cc (rw empty at e))
    | inr full ↦ All-get_elem? P xs (rng.below (length xs) rand).0 h (rw full at e)
  ]

  pub choose_filtered-All :
      {R : Type 0} (rng : Rand R) (P : A → Type 0) (p : A → Bool) (xs : List A) (rand : R) (x : A)
      → All P xs
      → (choose_filtered rng xs p rand).0 ≡ some x
      → P x × (p x ≡ true)
  unfolding choose_filtered
  choose_filtered-All rng P p xs rand x h e =
      choose_item-All rng (λ y. P y × (p y ≡ true)) (keep p xs) rand x (keep-All P p xs h) e

module _ {V M : Type 0} where
  -- What a reference into typed steps gives: a typed target, and typed steps after a typed write.
  pub record TypedPlace {C : Type 0} (Typed : C → Type 0) (r : Mut V M C) : Type 0 where
    pub target_typed : WellTyped r.target
    pub write_typed : (u : Term V M) → HasType u (get_type_shape r.target) → Typed (r.write u)

  place_within :
      {C D : Type 0} {TypedC : C → Type 0} {TypedD : D → Type 0} (f : C → D) (q : Mut V M C)
      → ((c : C) → TypedC c → TypedD (f c))
      → TypedPlace TypedC q
      → TypedPlace TypedD (record { target = q.target; write = λ u. f (q.write u) })
  place_within f q lift h = record {
    target_typed = h.target_typed;
    write_typed = λ u k. lift (q.write u) (h.write_typed u k);
  }

  abbrev pub ActionTyped : Action V M → Type 0
  ActionTyped a = elim a [ input recipe ↦ WellTyped recipe | output ↦ Unit {0} ]

  action-TypedPlace :
      (a : Action V M) (p : TermPath) {r : Mut V M (Action V M)}
      → find_in_action a p ≡ some r
      → ActionTyped a
      → TypedPlace ActionTyped r
  unfolding find_in_action
  action-TypedPlace output p e h = cc
  action-TypedPlace (input recipe) p e h =
      let (q, found, same) = within-eq-some input (find_term_by_term_path_mut recipe p) e in
      let d = find-PointsTo recipe p found in
      subst (TypedPlace ActionTyped) same (record {
        target_typed = target-WellTyped d h;
        write_typed = λ u k. (write-WellTyped d u h k).0;
      })

  steps-TypedPlace :
      (ss : List (Step V M)) (i : ℕ) (p : TermPath) {r : Mut V M (List (Step V M))}
      → find_in_steps ss i p ≡ some r
      → All StepTyped ss
      → TypedPlace (All StepTyped) r
  unfolding find_in_steps
  steps-TypedPlace [] i p e h = cc
  steps-TypedPlace (s ∷ ss) zero p e h =
      let (q, found, same) =
        within-eq-some (λ a. record s { action = a } ∷ ss) (find_in_action s.action p) e in
      subst (TypedPlace (All StepTyped)) same (
        place_within {TypedC = ActionTyped} {TypedD = All StepTyped}
          (λ a. record s { action = a } ∷ ss) q (λ a k. (k, h.1))
          (action-TypedPlace s.action p found h.0))
  steps-TypedPlace (s ∷ ss) (suc i) p e h =
      let (q, found, same) = within-eq-some (λ rest. s ∷ rest) (find_in_steps ss i p) e in
      subst (TypedPlace (All StepTyped)) same (
        place_within {TypedC = All StepTyped} {TypedD = All StepTyped} (λ rest. s ∷ rest) q
          (λ rest k. (h.0, k)) (steps-TypedPlace ss i p found h.1))

  pub find_term_mut-TypedPlace :
      (tr : Trace V M) (path : TracePath) {r : Mut V M (Trace V M)}
      → find_term_mut tr path ≡ some r
      → TraceTyped tr
      → TypedPlace TraceTyped r
  unfolding find_term_mut
  find_term_mut-TypedPlace (of_parts ds ss ps) (i, p) e h =
      let (q, found, same) =
        within-eq-some (with_steps (of_parts ds ss ps)) (find_in_steps ss i p) e in
      subst (TypedPlace TraceTyped) same (
        place_within {TypedC = All StepTyped} {TypedD = TraceTyped} (with_steps (of_parts ds ss ps))
          q (λ rest k. k) (steps-TypedPlace ss i p found h))
