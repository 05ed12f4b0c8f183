-- ===== src/Fuzzer/Lengths.antt =====
-- puffin/src/fuzzer/mutations.rs, SKIP and REPEAT: the number of steps.
use tlspuffin.Base.{
  suc, take, drop, ◌++◌, get_elem?, some, ◌⊎◌, ℕ, ◌+◌, ◌-◌, ◌≤◌, ◌<◌, ◌≡◌, refl, true, false, [],
  ◌∷◌, length, ◌==◌, leb, arith, All-get_elem?, Bool-cases, inl, inr, remove_lem, insert_lem,
  get_elem?-lt,
}
use tlspuffin.Trace.Defs.{
  Trace, Step, descriptors, steps, prior_traces, of_parts, StepTyped, TraceTyped,
}
use tlspuffin.Fuzzer.Rand.{Rand}
use tlspuffin.Fuzzer.TypeSafety.{Leaves}
use tlspuffin.Fuzzer.Mutators.{skip_mutate, repeat_mutate}

module _ {V M : Type 0} where
  -- All but the steps is as it was.
  abbrev pub KeepsOthers : Trace V M → Trace V M → Type 0
  KeepsOthers tr tr' = (descriptors tr' ≡ descriptors tr) × (prior_traces tr' ≡ prior_traces tr)

  -- The steps are those of the trace without the one at an index.
  abbrev pub WithoutOne : Trace V M → Trace V M → Type 0
  WithoutOne tr tr' =
      (i : ℕ) × (i < length (steps tr)) × (steps tr' ≡ take i (steps tr) ++ drop (suc i) (steps tr))

  -- The steps are those of the trace with one of them a second time, at an index.
  abbrev pub WithRepeated : Trace V M → Trace V M → Type 0
  WithRepeated tr tr' =
      (i j : ℕ) × (step : Step V M) × (i ≤ length (steps tr))
      × (get_elem? (steps tr) j ≡ some step)
      × (steps tr' ≡ take i (steps tr) ++ step ∷ drop i (steps tr))

  -- What SKIP leaves: the trace itself at or below the minimum, else the trace without one of its steps;
  -- typed.
  abbrev pub Skips : ℕ → Trace V M → Trace V M → Type 0
  Skips least tr tr' =
      TraceTyped tr'
      × KeepsOthers tr tr'
      × ((length (steps tr) ≤ least) × (tr' ≡ tr)
          ⊎ (least < length (steps tr))
            × (length (steps tr') + 1 ≡ length (steps tr))
            × WithoutOne tr tr')

  -- What REPEAT leaves: the trace itself if it is empty or at the maximum, else the trace with one of its
  -- steps repeated; typed.
  abbrev pub Repeats : ℕ → Trace V M → Trace V M → Type 0
  Repeats most tr tr' =
      TraceTyped tr'
      × KeepsOthers tr tr'
      × (((length (steps tr) ≡ 0) ⊎ (most ≤ length (steps tr))) × (tr' ≡ tr)
          ⊎ (0 < length (steps tr))
            × (length (steps tr) < most)
            × (length (steps tr') ≡ length (steps tr) + 1)
            × WithRepeated tr tr')

module _ {V M R : Type 0} (rng : Rand R) where
  -- On a trace whose recipes are all well-typed, SKIP does not panic; it keeps the recipes
  -- well-typed, and the descriptors and prior traces as they are; it leaves a trace of at most the
  -- minimal length as it is, and of a longer one exactly the step at one index is taken away, while
  -- the others keep their order.
  pub skip_mutate-Skips :
      (least : ℕ) (tr : Trace V M) (rand : R)
      → TraceTyped tr
      → Leaves (Skips least tr) (skip_mutate rng least tr rand)
  unfolding skip_mutate
  skip_mutate-Skips least (of_parts ds [] ps) rand typed =
      let bound : leb 0 least ≡ true = ground arith in
      rw bound (tt, (refl, refl), inl (omega arith, refl))
  skip_mutate-Skips least (of_parts ds (s ∷ ss) ps) rand typed =
      elim (Bool-cases (leb (length (s ∷ ss)) least)) [
        | inl e ↦ rw e (typed, (refl, refl), inl (ground arith, refl))
        | inr e ↦
            let remove_index = (rng.between 0 (length (s ∷ ss) - 1) rand).0 in
            let inside = rng.between-le 0 (length (s ∷ ss) - 1) rand (omega arith) in
            let (ys, removed, is, len, all) =
              remove_lem StepTyped (s ∷ ss) remove_index (omega (arith, inside)) typed in
            let nonempty : (length (s ∷ ss) == 0) ≡ false = ground arith in
            rw (e, nonempty, removed)
              (
                all,
                (refl, refl),
                inr (ground arith, len, (remove_index, omega (arith, inside), is)),
              )
      ]

  -- On a trace whose recipes are all well-typed, REPEAT does not panic; it keeps the recipes
  -- well-typed, and the descriptors and prior traces as they are; it leaves a trace that is empty
  -- or has at least the maximal length as it is, and in any other one of its steps is inserted once
  -- more at one index, while the steps that were there keep their order.
  pub repeat_mutate-Repeats :
      (most : ℕ) (tr : Trace V M) (rand : R)
      → TraceTyped tr
      → Leaves (Repeats most tr) (repeat_mutate rng most tr rand)
  unfolding repeat_mutate
  repeat_mutate-Repeats most (of_parts ds [] ps) rand typed = elim (Bool-cases (leb most 0)) [
    | inl e ↦ rw e (tt, (refl, refl), inl (inl refl, refl))
    | inr e ↦ rw e (tt, (refl, refl), inl (inl refl, refl))
  ]
  repeat_mutate-Repeats most (of_parts ds (s ∷ ss) ps) rand typed =
      elim (Bool-cases (leb most (length (s ∷ ss)))) [
        | inl e ↦ rw e (typed, (refl, refl), inl (inr (ground arith), refl))
        | inr e ↦
            let insert_index = (rng.between 0 (length (s ∷ ss)) rand).0 in
            let inside = rng.between-le 0 (length (s ∷ ss)) rand (omega arith) in
            let rand1 = (rng.between 0 (length (s ∷ ss)) rand).1 in
            let chosen = (rng.choose_index (length (s ∷ ss)) rand1).0 in
            let (step, found) =
              get_elem?-lt (s ∷ ss) chosen
                (rng.choose_index-lt (length (s ∷ ss)) rand1 (omega arith)) in
            let (ys, inserted, is, len, all) =
              insert_lem StepTyped (s ∷ ss) insert_index step inside typed
                (All-get_elem? StepTyped (s ∷ ss) chosen typed found) in
            let nonempty : (length (s ∷ ss) == 0) ≡ false = ground arith in
            rw (e, nonempty, found, inserted)
              (
                all,
                (refl, refl),
                inr (
                  omega arith,
                  ground arith,
                  len,
                  (insert_index, chosen, step, inside, found, is),
                ),
              )
      ]
