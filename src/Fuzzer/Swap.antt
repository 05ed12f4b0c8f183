-- ===== src/Fuzzer/Swap.antt =====
-- puffin/src/fuzzer/mutations.rs, `SwapMutator`: the two writes of a swap, and when they keep the
-- recipes well-typed. The paths are chosen before the first write and used after it.
use tlspuffin.Base.{ℕ, zero, suc, ◌≡◌, refl, sym, ap, ◌∙◌, subst, List, [], ◌∷◌, some, and_then}
use tlspuffin.Algebra.Term.{Term, Terms, variable, application, get_type_shape}
use tlspuffin.Algebra.Typing.{SameType}
use tlspuffin.Algebra.Path.{
  Mut, TermPath, subterm_at, subterm_in, find_term_by_term_path_mut, PointsTo, PointsIn, root,
  below, here, further, within-eq-some, find-PointsTo,
}
use tlspuffin.Trace.Defs.{Step, Action, input, output}
use tlspuffin.Fuzzer.Sampling.{TracePath}
use tlspuffin.Fuzzer.Positions.{recipe_at, recipe_of}
use tlspuffin.Fuzzer.Choose.{find_in_action, find_in_steps}
use tlspuffin.Fuzzer.Targets.{term_at}

-- The first position is strictly above the second one.
abbrev pub IsStrictPrefix : TermPath → TermPath → Type 0
IsStrictPrefix [] [] = ⊥
IsStrictPrefix [] (j ∷ q) = Unit
IsStrictPrefix (i ∷ p) [] = ⊥
IsStrictPrefix (i ∷ p) (j ∷ q) = (i ≡ j) × IsStrictPrefix p q

abbrev pub IsAbove : TracePath → TracePath → Type 0
IsAbove a b = (a.0 ≡ b.0) × IsStrictPrefix a.1 b.1

module _ {V M : Type 0} where
  abbrev pub Alike : Term V M → Term V M → Type 0
  Alike t u = SameType (get_type_shape t) (get_type_shape u)

  Alike-some : (t u a b : Term V M) → Alike u t → some t ≡ some a → some u ≡ some b → Alike b a
  Alike-some t u a b h e e' =
      let same : t ≡ a = cc in
      let same' : u ≡ b = cc in subst (λ x. Alike x a) same' (subst (Alike u) same h)

  mutual
    unfolding subterm_at

    -- A write of a term of the target's type keeps the type at every position that is not below it.
    pub write-Alike :
        {t : Term V M} {p : TermPath} {r : Mut V M (Term V M)}
        → PointsTo t p r
        → (u : Term V M) (q : TermPath) (a b : Term V M) → ¬ IsStrictPrefix p q
        → Alike u r.target
        → subterm_at t q ≡ some a
        → subterm_at (r.write u) q ≡ some b
        → Alike b a
    write-Alike (root (variable v)) (variable w) [] a b n h e e' =
        Alike-some (variable v) (variable w) a b h e e'
    write-Alike (root (variable v)) (application g us) [] a b n h e e' =
        Alike-some (variable v) (application g us) a b h e e'
    write-Alike (root (application f ts)) (variable w) [] a b n h e e' =
        Alike-some (application f ts) (variable w) a b h e e'
    write-Alike (root (application f ts)) (application g us) [] a b n h e e' =
        Alike-some (application f ts) (application g us) a b h e e'
    write-Alike (root t) u (j ∷ q) a b n h e e' = absurd (n tt)
    write-Alike (below f {ts = ts} {r = r} d) u [] a b n h e e' =
        Alike-some (application f ts) (application f (r.write u)) a b refl e e'
    write-Alike (below f d) u (j ∷ q) a b n h e e' = write-Alike_in d u j q a b n h e e'

    write-Alike_in :
        {ts : Terms V M} {i : ℕ} {p : TermPath} {r : Mut V M (Terms V M)}
        → PointsIn ts i p r
        → (u : Term V M) (j : ℕ) (q : TermPath) (a b : Term V M) → ¬ IsStrictPrefix (i ∷ p) (j ∷ q)
        → Alike u r.target
        → subterm_in ts j q ≡ some a
        → subterm_in (r.write u) j q ≡ some b
        → Alike b a
    write-Alike_in (here ts d) u zero q a b n h e e' =
        write-Alike d u q a b (λ k. n (refl, k)) h e e'
    write-Alike_in (here ts d) u (suc j) q a b n h e e' = Alike-some a a a b refl refl (sym e ∙ e')
    write-Alike_in (further t d) u zero q a b n h e e' = Alike-some a a a b refl refl (sym e ∙ e')
    write-Alike_in (further t d) u (suc j) q a b n h e e' =
        write-Alike_in d u j q a b (λ k. n (ap suc k.0, k.1)) h e e'

  action-Alike :
      (s : Action V M) (p q : TermPath) (r : Mut V M (Action V M)) (u a b : Term V M)
      → find_in_action s p ≡ some r
      → ¬ IsStrictPrefix p q
      → Alike u r.target
      → and_then (recipe_of s) (λ t. subterm_at t q) ≡ some a
      → and_then (recipe_of (r.write u)) (λ t. subterm_at t q) ≡ some b
      → Alike b a
  unfolding find_in_action
  action-Alike output p q r u a b e n h = absurd (cc)
  action-Alike (input recipe) p q r u a b e n h =
      let (x, found, same) = within-eq-some input (find_term_by_term_path_mut recipe p) e in
      subst
        (λ (y : Mut V M (Action V M)).
          Alike u y.target
          → and_then (recipe_of (input recipe)) (λ t. subterm_at t q) ≡ some a
          → and_then (recipe_of (y.write u)) (λ t. subterm_at t q) ≡ some b
          → Alike b a)
        same (λ h' ea eb. write-Alike (find-PointsTo recipe p found) u q a b n h' ea eb) h

  pub steps-Alike :
      (ss : List (Step V M)) (i j : ℕ) (p q : TermPath) (r : Mut V M (List (Step V M)))
      (u a b : Term V M)
      → find_in_steps ss i p ≡ some r
      → ¬ IsAbove (i, p) (j, q)
      → Alike u r.target
      → term_at ss (j, q) ≡ some a
      → term_at (r.write u) (j, q) ≡ some b
      → Alike b a
  unfolding find_in_steps term_at recipe_at
  steps-Alike [] i j p q r u a b e n h = absurd (cc)
  steps-Alike (s ∷ ss) zero zero p q r u a b e n h =
      let (x, found, same) =
        within-eq-some (λ t. record s { action = t } ∷ ss) (find_in_action s.action p) e in
      subst
        (λ (y : Mut V M (List (Step V M))).
          Alike u y.target
          → term_at (s ∷ ss) (0, q) ≡ some a
          → term_at (y.write u) (0, q) ≡ some b
          → Alike b a)
        same (λ h' ea eb. action-Alike s.action p q x u a b found (λ k. n (refl, k)) h' ea eb) h
  steps-Alike (s ∷ ss) zero (suc j) p q r u a b e n h =
      let (x, found, same) =
        within-eq-some (λ t. record s { action = t } ∷ ss) (find_in_action s.action p) e in
      subst
        (λ (y : Mut V M (List (Step V M))).
          Alike u y.target
          → term_at (s ∷ ss) (suc j, q) ≡ some a
          → term_at (y.write u) (suc j, q) ≡ some b
          → Alike b a)
        same (λ h' ea eb. Alike-some a a a b refl refl (sym ea ∙ eb)) h
  steps-Alike (s ∷ ss) (suc i) zero p q r u a b e n h =
      let (x, found, same) = within-eq-some (λ rest. s ∷ rest) (find_in_steps ss i p) e in
      subst
        (λ (y : Mut V M (List (Step V M))).
          Alike u y.target
          → term_at (s ∷ ss) (0, q) ≡ some a
          → term_at (y.write u) (0, q) ≡ some b
          → Alike b a)
        same (λ h' ea eb. Alike-some a a a b refl refl (sym ea ∙ eb)) h
  steps-Alike (s ∷ ss) (suc i) (suc j) p q r u a b e n h =
      let (x, found, same) = within-eq-some (λ rest. s ∷ rest) (find_in_steps ss i p) e in
      subst
        (λ (y : Mut V M (List (Step V M))).
          Alike u y.target
          → term_at (s ∷ ss) (suc j, q) ≡ some a
          → term_at (y.write u) (suc j, q) ≡ some b
          → Alike b a)
        same (λ h' ea eb. steps-Alike ss i j p q x u a b found (λ k. n (ap suc k.0, k.1)) h' ea eb)
        h
