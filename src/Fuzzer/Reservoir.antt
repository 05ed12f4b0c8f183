-- ===== src/Fuzzer/Reservoir.antt =====
-- puffin/src/fuzzer/mutations.rs, `reservoir_sample`: what is in the reservoir at the end.
use tlspuffin.Base.{
  ℕ, ◌≡◌, sym, ap, ◌∙◌, subst, Bool, true, false, ◌||◌, List, [], ◌∷◌, Option, none, some, arith,
  inl, inr, ◌⊎◌, All, any, is_some,
}
use tlspuffin.Algebra.Term.{Term}
use tlspuffin.Algebra.Path.{TermPath, subterm_at}
use tlspuffin.Trace.Defs.{Trace, steps}
use tlspuffin.Fuzzer.Rand.{Rand}
use tlspuffin.Fuzzer.Sampling.{
  TermConstraints, Found, Sampling, out_of_bounds, consider, reservoir_sample,
}
use tlspuffin.Fuzzer.Enumeration.{candidates, consider_all, sample_steps-candidates}
use tlspuffin.Fuzzer.Positions.{recipe_at, Located, candidates-Located, candidates-any}

-- What the reservoir holds.
abbrev Holds : {V M : Type 0} → (Found V M → Type 0) → Option (Found V M) → Type 0
Holds P none = Unit
Holds P (some x) = P x

module _ {V M R : Type 0} (rng : Rand R) (filter : Term V M → Bool) where
  consider-cases :
      (x : Found V M) (s : Sampling V M R)
      → ((consider rng filter x s).reservoir ≡ s.reservoir)
        ⊎ (filter x.0 ≡ true) × ((consider rng filter x s).reservoir ≡ some x)
  unfolding consider
  consider-cases x s = ground arith

  consider-Holds :
      (P : Found V M → Type 0) (x : Found V M) (s : Sampling V M R)
      → (filter x.0 ≡ true → P x)
      → Holds P s.reservoir
      → Holds P (consider rng filter x s).reservoir
  consider-Holds P x s px held = elim (consider-cases x s) [
    | inl e ↦ subst (Holds P) (sym e) held
    | inr (h, e) ↦ subst (Holds P) (sym e) (px h)
  ]

  consider_all-Holds :
      (P : Found V M → Type 0) (xs : List (Found V M)) (s : Sampling V M R)
      → All P xs
      → Holds (λ x. P x × (filter x.0 ≡ true)) s.reservoir
      → Holds (λ x. P x × (filter x.0 ≡ true)) (consider_all rng filter xs s).reservoir
  unfolding consider_all
  consider_all-Holds P [] s h held = held
  consider_all-Holds P (x ∷ xs) s h held =
      consider_all-Holds P xs (consider rng filter x s) h.1
        (consider-Holds (λ y. P y × (filter y.0 ≡ true)) x s (λ e. (h.0, e)) held)

  consider-filled :
      (x : Found V M) (s : Sampling V M R)
      → is_some (consider rng filter x s).reservoir ≡ filter x.0 || is_some s.reservoir
  unfolding consider
  consider-filled x s = ground arith

  consider_all-filled :
      (xs : List (Found V M)) (s : Sampling V M R)
      → is_some (consider_all rng filter xs s).reservoir
        ≡ is_some s.reservoir || any (λ x. filter x.0) xs
  unfolding consider_all
  consider_all-filled [] s = ground arith
  consider_all-filled (x ∷ xs) s =
      ground (arith, consider_all-filled xs (consider rng filter x s), consider-filled x s)

  -- A term that `reservoir_sample` returns passes the filter and stands at the returned path: in
  -- the recipe of an input step of that index, and that recipe is within the size bounds.
  pub reservoir_sample_sound :
      (tr : Trace V M) (c : TermConstraints) (rand : R) (u : Term V M) (k : ℕ) (q : TermPath)
      → (reservoir_sample rng filter tr c rand).0 ≡ some (u, (k, q))
      → (recipe : Term V M) × (recipe_at (steps tr) k ≡ some recipe)
        × (out_of_bounds c recipe ≡ false)
        × (subterm_at recipe q ≡ some u)
        × (filter u ≡ true)
  unfolding reservoir_sample
  reservoir_sample_sound tr c rand u k q e =
      let start : Sampling V M R = record { reservoir = none; visited = 0; rand = rand } in
      let same = ap (λ s. s.reservoir) (sample_steps-candidates rng filter c 0 (steps tr) start) in
      let (place, passed) =
        subst (Holds (λ x. Located c 0 (steps tr) x × (filter x.0 ≡ true))) (sym same ∙ e) (
          consider_all-Holds (Located c 0 (steps tr)) (candidates c 0 (steps tr)) start
            (candidates-Located c 0 (steps tr)) tt) in
      let (j, recipe, at, found, bounds, h) = place in
      (
        recipe,
        subst (λ n. recipe_at (steps tr) n ≡ some recipe) (omega arith) found,
        bounds,
        h,
        passed,
      )

  -- `reservoir_sample` returns a term whenever a subterm of a recipe within the size bounds passes
  -- the filter.
  pub reservoir_sample_complete :
      (tr : Trace V M) (c : TermConstraints) (rand : R) (k : ℕ) (q : TermPath) (recipe u : Term V M)
      → recipe_at (steps tr) k ≡ some recipe
      → out_of_bounds c recipe ≡ false
      → subterm_at recipe q ≡ some u
      → filter u ≡ true
      → is_some (reservoir_sample rng filter tr c rand).0 ≡ true
  unfolding reservoir_sample
  reservoir_sample_complete tr c rand k q recipe u e b h p =
      let start : Sampling V M R = record { reservoir = none; visited = 0; rand = rand } in
      ap (λ s. is_some s.reservoir) (sample_steps-candidates rng filter c 0 (steps tr) start)
      ∙ consider_all-filled (candidates c 0 (steps tr)) start
      ∙ candidates-any c filter 0 k (steps tr) q recipe u e b h p
