-- ===== src/Algebra/Reference.antt =====
-- Laws of the reference that a position leads to: reading, writing, typing and size.
use tlspuffin.Base.{ℕ, ◌+◌, ◌≡◌, refl, sym, ◌∙◌, ap, List, [], ◌∷◌, some, arith, and_then}
use tlspuffin.Algebra.Shape.{TypeShape}
use tlspuffin.Algebra.Term.{
  Term, Terms, variable, application, cons, get_type_shape, size, size_terms,
}
use tlspuffin.Algebra.Typing.{WellTyped, Fits, HasType}
use tlspuffin.Algebra.Path.{
  Mut, TermPath, find_term_by_term_path_mut, find_in_subterms, PointsTo, PointsIn, root, below,
  here, further, find-PointsTo, subterm_at, within, target-subterm_at,
}

module _ {V M : Type 0} where
  mutual
    -- Writing the target back changes nothing.
    pub write-target :
        {t : Term V M} {p : TermPath} {r : Mut V M (Term V M)}
        → PointsTo t p r
        → r.write r.target ≡ t
    write-target (root t) = refl
    write-target (below f d) = ap (application f) (write-target_in d)

    write-target_in :
        {ts : Terms V M} {i : ℕ} {p : TermPath} {r : Mut V M (Terms V M)}
        → PointsIn ts i p r
        → r.write r.target ≡ ts
    write-target_in (here ts d) = ap (λ u. cons u ts) (write-target d)
    write-target_in (further t d) = ap (cons t) (write-target_in d)

  mutual
    unfolding find_term_by_term_path_mut

    -- After a write the position leads to what was written, through the same reference.
    pub find-write :
        {t : Term V M} {p : TermPath} {r : Mut V M (Term V M)}
        → PointsTo t p r
        → (u : Term V M)
        → find_term_by_term_path_mut (r.write u) p ≡ some (record { target = u; write = r.write })
    find-write (root t) (variable v) = refl
    find-write (root t) (application f ts) = refl
    find-write (below f d) u = ap (within (application f)) (find-write_in d u)

    find-write_in :
        {ts : Terms V M} {i : ℕ} {p : TermPath} {r : Mut V M (Terms V M)}
        → PointsIn ts i p r
        → (u : Term V M)
        → find_in_subterms (r.write u) i p ≡ some (record { target = u; write = r.write })
    find-write_in (here ts d) u = ap (within (λ t. cons t ts)) (find-write d u)
    find-write_in (further t d) u = ap (within (cons t)) (find-write_in d u)

  mutual
    unfolding WellTyped

    -- Every subterm of a well-typed term is well-typed.
    pub target-WellTyped :
        {t : Term V M} {p : TermPath} {r : Mut V M (Term V M)}
        → PointsTo t p r
        → WellTyped t
        → WellTyped r.target
    target-WellTyped (root t) h = h
    target-WellTyped (below f d) h = target-Fits f.shape.argument_types d h

    target-Fits :
        (types : List TypeShape) {ts : Terms V M} {i : ℕ} {p : TermPath} {r : Mut V M (Terms V M)}
        → PointsIn ts i p r
        → Fits ts types
        → WellTyped r.target
    target-Fits [] (here ts d) h = absurd h
    target-Fits [] (further t d) h = absurd h
    target-Fits (b ∷ bs) (here ts d) h = target-WellTyped d h.1
    target-Fits (b ∷ bs) (further t d) h = target-Fits bs d h.2

  mutual
    unfolding WellTyped

    -- Writing a well-typed term of the target's type keeps the whole well-typed, of its type.
    pub write-WellTyped :
        {t : Term V M} {p : TermPath} {r : Mut V M (Term V M)}
        → PointsTo t p r
        → (u : Term V M) → WellTyped t
        → HasType u (get_type_shape r.target)
        → HasType (r.write u) (get_type_shape t)
    write-WellTyped (root t) u h k = k
    write-WellTyped (below f d) u h k = (write-Fits f.shape.argument_types d u h k, refl)

    write-Fits :
        (types : List TypeShape) {ts : Terms V M} {i : ℕ} {p : TermPath} {r : Mut V M (Terms V M)}
        → PointsIn ts i p r
        → (u : Term V M) → Fits ts types
        → HasType u (get_type_shape r.target)
        → Fits (r.write u) types
    write-Fits [] (here ts d) u h k = absurd h
    write-Fits [] (further t d) u h k = absurd h
    write-Fits (b ∷ bs) (here ts d) u h k =
        let (typed, same) = write-WellTyped d u h.1 k in (same ∙ h.0, typed, h.2)
    write-Fits (b ∷ bs) (further t d) u h k = (h.0, h.1, write-Fits bs d u h.2 k)

  mutual
    unfolding size

    -- A write changes the size by what is written instead of the target.
    pub size-write :
        {t : Term V M} {p : TermPath} {r : Mut V M (Term V M)}
        → PointsTo t p r
        → (u : Term V M) → size (r.write u) + size r.target ≡ size t + size u
    size-write (root t) u = omega arith
    size-write (below f d) u = omega (arith, size_terms-write d u)

    size_terms-write :
        {ts : Terms V M} {i : ℕ} {p : TermPath} {r : Mut V M (Terms V M)}
        → PointsIn ts i p r
        → (u : Term V M) → size_terms (r.write u) + size r.target ≡ size_terms ts + size u
    size_terms-write (here ts d) u = omega (arith, size-write d u)
    size_terms-write (further t d) u = omega (arith, size_terms-write d u)

module _ {V M : Type 0} where
  -- The reference that `find_term_by_term_path_mut` finds reads the subterm at the path; writing
  -- its target back changes nothing; after a write of another term the path leads to that term
  -- through the same reference, and the size has changed by the difference of the two.
  pub find_term_by_term_path_mut_lem :
      (t : Term V M) (p : TermPath) (r : Mut V M (Term V M)) (u : Term V M)
      → find_term_by_term_path_mut t p ≡ some r
      → (subterm_at t p ≡ some r.target)
        × (r.write r.target ≡ t)
        × (find_term_by_term_path_mut (r.write u) p ≡ some (record { target = u; write = r.write }))
        × (size (r.write u) + size r.target ≡ size t + size u)
  find_term_by_term_path_mut_lem t p r u e =
      let points = find-PointsTo t p e in
      (
        sym (target-subterm_at t p)
            ∙ ap (λ o. and_then o (λ (x : Mut V M (Term V M)). some x.target)) e,
        write-target points,
        find-write points u,
        size-write points u,
      )

  -- Writing a well-typed term of the target's type through the reference that
  -- `find_term_by_term_path_mut` finds keeps a well-typed term well-typed, of its type.
  pub find_term_by_term_path_mut-HasType :
      (t : Term V M) (p : TermPath) (r : Mut V M (Term V M)) (u : Term V M)
      → find_term_by_term_path_mut t p ≡ some r
      → WellTyped t
      → HasType u (get_type_shape r.target)
      → HasType (r.write u) (get_type_shape t)
  find_term_by_term_path_mut-HasType t p r u e = write-WellTyped (find-PointsTo t p e) u
