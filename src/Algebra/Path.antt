-- ===== src/Algebra/Path.antt =====
-- puffin/src/fuzzer/mutations.rs, `util`: positions in a term, and the mutable reference that a
-- position leads to. A reference is the subterm together with what writing through it makes of
-- the whole.
use tlspuffin.Base.{
  ℕ, zero, suc, ◌≡◌, refl, ◌∙◌, subst, List, [], ◌∷◌, Option, none, some, and_then,
}
use tlspuffin.Algebra.Term.{Term, Terms, Function, variable, application, nil, cons}

pub record Mut (V M C : Type 0) : Type 0 where
  pub target : Term V M
  pub write : Term V M → C

abbrev pub TermPath : Type 0
TermPath = List ℕ

module _ {V M C D : Type 0} where
  -- The reference seen from a larger whole.
  abbrev pub within : (C → D) → Option (Mut V M C) → Option (Mut V M D)
  within f none = none
  within f (some r) = some (record { target = r.target; write = λ u. f (r.write u) })

module _ {V M : Type 0} where
  unfoldable mutual
    pub find_term_by_term_path_mut : Term V M → TermPath → Option (Mut V M (Term V M))
    find_term_by_term_path_mut t [] = some (record { target = t; write = λ u. u })
    find_term_by_term_path_mut (variable v) (i ∷ p) = none
    find_term_by_term_path_mut (application f ts) (i ∷ p) =
        within (application f) (find_in_subterms ts i p)

    pub find_in_subterms : Terms V M → ℕ → TermPath → Option (Mut V M (Terms V M))
    find_in_subterms nil i p = none
    find_in_subterms (cons t ts) zero p = within (λ u. cons u ts) (find_term_by_term_path_mut t p)
    find_in_subterms (cons t ts) (suc i) p = within (cons t) (find_in_subterms ts i p)

  -- The subterm at a position.
  unfoldable mutual
    pub subterm_at : Term V M → TermPath → Option (Term V M)
    subterm_at t [] = some t
    subterm_at (variable v) (i ∷ p) = none
    subterm_at (application f ts) (i ∷ p) = subterm_in ts i p

    pub subterm_in : Terms V M → ℕ → TermPath → Option (Term V M)
    subterm_in nil i p = none
    subterm_in (cons t ts) zero p = subterm_at t p
    subterm_in (cons t ts) (suc i) p = subterm_in ts i p

-- What `find_term_by_term_path_mut` finds, as a relation: one rule for each way down.
module _ {V M : Type 0} where
  mutual
    pub data PointsTo : Term V M → TermPath → Mut V M (Term V M) → Type 0 where
      root : (t : Term V M) → PointsTo t [] (record { target = t; write = λ u. u })
      below :
          (f : Function V) {ts : Terms V M} {i : ℕ} {p : TermPath} {r : Mut V M (Terms V M)}
          → PointsIn ts i p r
          → PointsTo
              (application f ts)
              (i ∷ p)
              (record { target = r.target; write = λ u. application f (r.write u) })

    pub data PointsIn : Terms V M → ℕ → TermPath → Mut V M (Terms V M) → Type 0 where
      here :
          {t : Term V M} (ts : Terms V M) {p : TermPath} {r : Mut V M (Term V M)}
          → PointsTo t p r
          → PointsIn
              (cons t ts)
              zero
              p
              (record { target = r.target; write = λ u. cons (r.write u) ts })
      further :
          (t : Term V M) {ts : Terms V M} {i : ℕ} {p : TermPath} {r : Mut V M (Terms V M)}
          → PointsIn ts i p r
          → PointsIn
              (cons t ts)
              (suc i)
              p
              (record { target = r.target; write = λ u. cons t (r.write u) })

module _ {V M C D : Type 0} where
  pub within-eq-some :
      (f : C → D) (o : Option (Mut V M C)) {r : Mut V M D}
      → within f o ≡ some r
      → (q : Mut V M C) × (o ≡ some q)
        × (record { target = q.target; write = λ u. f (q.write u) } ≡ r)
  within-eq-some f none e = cc
  within-eq-some f (some q) e = (q, refl, cc)

  pub target-within :
      (f : C → D) (o : Option (Mut V M C))
      → and_then (within f o) (λ r. some r.target) ≡ and_then o (λ r. some r.target)
  target-within f none = refl
  target-within f (some q) = refl

module _ {V M : Type 0} where
  mutual
    unfolding find_term_by_term_path_mut subterm_at

    -- A position has a reference exactly when it has a subterm, and the reference's target is it.
    pub target-subterm_at :
        (t : Term V M) (p : TermPath)
        → and_then (find_term_by_term_path_mut t p) (λ r. some r.target) ≡ subterm_at t p
    target-subterm_at (variable v) [] = refl
    target-subterm_at (application f ts) [] = refl
    target-subterm_at (variable v) (i ∷ p) = refl
    target-subterm_at (application f ts) (i ∷ p) =
        target-within (application f) (find_in_subterms ts i p) ∙ target-subterm_in ts i p

    target-subterm_in :
        (ts : Terms V M) (i : ℕ) (p : TermPath)
        → and_then (find_in_subterms ts i p) (λ r. some r.target) ≡ subterm_in ts i p
    target-subterm_in nil i p = refl
    target-subterm_in (cons t ts) zero p =
        target-within (λ u. cons u ts) (find_term_by_term_path_mut t p) ∙ target-subterm_at t p
    target-subterm_in (cons t ts) (suc i) p =
        target-within (cons t) (find_in_subterms ts i p) ∙ target-subterm_in ts i p

  mutual
    unfolding find_term_by_term_path_mut

    pub find-PointsTo :
        (t : Term V M) (p : TermPath) {r : Mut V M (Term V M)}
        → find_term_by_term_path_mut t p ≡ some r
        → PointsTo t p r
    find-PointsTo (variable v) [] e = subst (PointsTo (variable v) []) (cc) (root (variable v))
    find-PointsTo (application f ts) [] e =
        subst (PointsTo (application f ts) []) (cc) (root (application f ts))
    find-PointsTo (variable v) (i ∷ p) e = cc
    find-PointsTo (application f ts) (i ∷ p) e =
        let (q, found, same) = within-eq-some (application f) (find_in_subterms ts i p) e in
        subst (PointsTo (application f ts) (i ∷ p)) same (below f (find-PointsIn ts i p found))

    find-PointsIn :
        (ts : Terms V M) (i : ℕ) (p : TermPath) {r : Mut V M (Terms V M)}
        → find_in_subterms ts i p ≡ some r
        → PointsIn ts i p r
    find-PointsIn nil i p e = cc
    find-PointsIn (cons t ts) zero p e =
        let (q, found, same) = within-eq-some (λ u. cons u ts) (find_term_by_term_path_mut t p) e in
        subst (PointsIn (cons t ts) zero p) same (here ts (find-PointsTo t p found))
    find-PointsIn (cons t ts) (suc i) p e =
        let (q, found, same) = within-eq-some (cons t) (find_in_subterms ts i p) e in
        subst (PointsIn (cons t ts) (suc i) p) same (further t (find-PointsIn ts i p found))
