-- ===== src/Fuzzer/Lifting.antt =====
-- puffin/src/fuzzer/mutations.rs, `RemoveAndLiftMutator`: what `filter_grand_subterms` finds, and
-- that putting a grandchild in its parent's place keeps the subterms fitting.
use tlspuffin.Base.{
  ℕ, zero, suc, ◌+◌, ◌<◌, ◌≡◌, refl, sym, ap, ◌∙◌, subst, Bool, true, List, [], ◌∷◌, some, map,
  length, keep, get_elem?, arith, All, All-append, All-map, set,
}
use tlspuffin.Algebra.Shape.{TypeShape}
use tlspuffin.Algebra.Term.{
  Term, Terms, Function, variable, application, nil, cons, to_list, of_list, get_type_shape,
}
use tlspuffin.Algebra.Typing.{WellTyped, Fits, HasType}
use tlspuffin.Algebra.Subterms.{Grand, grand_of, grand_from, filter_grand_subterms}
use tlspuffin.Fuzzer.Places.{keep-All}

module _ {V M : Type 0} where
  pub Fits-All :
      (ts : Terms V M) (types : List TypeShape) → Fits ts types → All WellTyped (to_list ts)
  unfolding WellTyped
  Fits-All nil types h = tt
  Fits-All (cons t ts) [] h = absurd h
  Fits-All (cons t ts) (b ∷ bs) h = (h.1, Fits-All ts bs h.2)

  -- A subterm may be replaced by a well-typed term of its type.
  pub Fits-set :
      (ts : Terms V M) (types : List TypeShape) (i : ℕ) (old new : Term V M)
      → Fits ts types
      → get_elem? (to_list ts) i ≡ some old
      → HasType new (get_type_shape old)
      → Fits (of_list (set (to_list ts) i new)) types
  unfolding WellTyped
  Fits-set nil types i old new h e k = cc
  Fits-set (cons t ts) [] i old new h e k = absurd h
  Fits-set (cons t ts) (b ∷ bs) zero old new h e k =
      let same : t ≡ old = cc in
      (
        k.1 ∙ ap (λ u. (get_type_shape u).inner_type_id) (sym same) ∙ h.0,
        k.0,
        subst (λ us. Fits us bs) (sym (of_list-to_list ts)) h.2,
      )
    where
      of_list-to_list : (us : Terms V M) → of_list (to_list us) ≡ us
      of_list-to_list nil = refl
      of_list-to_list (cons u us) = ap (cons u) (of_list-to_list us)
  Fits-set (cons t ts) (b ∷ bs) (suc i) old new h e k = (h.0, h.1, Fits-set ts bs i old new h.2 e k)

  -- A grandchild that was found: its parent stands at the index, it passes the test, it is typed.
  pub record Grown (predicate : Term V M → Term V M → Bool) (ts : List (Term V M)) (g : Grand V M)
      : Type 0 where
    pub parent_at : get_elem? ts g.index ≡ some g.parent
    pub passes : predicate g.parent g.grand_subterm ≡ true
    pub typed : WellTyped g.grand_subterm

  abbrev Shifted : (Term V M → Term V M → Bool) → ℕ → List (Term V M) → Grand V M → Type 0
  Shifted predicate i ts g =
      (k : ℕ) × (g.index ≡ i + k)
      × (get_elem? ts k ≡ some g.parent)
      × (predicate g.parent g.grand_subterm ≡ true)
      × WellTyped g.grand_subterm

  children-typed :
      (t : Term V M) (f : Function V) (ts : Terms V M)
      → WellTyped (application f ts)
      → All WellTyped (to_list ts)
  unfolding WellTyped
  children-typed t f ts h = Fits-All ts f.shape.argument_types h

  All-grand :
      (predicate : Term V M → Term V M → Bool) (i : ℕ) (t : Term V M) (rest gs : List (Term V M))
      → All (λ g. WellTyped g × (predicate t g ≡ true)) gs
      → All
          (Shifted predicate i (t ∷ rest))
          (map (λ g. record { index = i; parent = t; grand_subterm = g }) gs)
  All-grand predicate i t rest [] h = tt
  All-grand predicate i t rest (g ∷ gs) h =
      ((0, omega arith, refl, h.0.1, h.0.0), All-grand predicate i t rest gs h.1)

  grand_of-Shifted :
      (predicate : Term V M → Term V M → Bool) (i : ℕ) (t : Term V M) (rest : List (Term V M))
      → WellTyped t
      → All (Shifted predicate i (t ∷ rest)) (grand_of predicate i t)
  unfolding grand_of
  grand_of-Shifted predicate i (variable v) rest h = tt
  grand_of-Shifted predicate i (application f ts) rest h =
      All-grand predicate i (application f ts) rest
        (keep (predicate (application f ts)) (to_list ts))
        (keep-All WellTyped (predicate (application f ts)) (to_list ts)
          (children-typed (application f ts) f ts h))

  shift :
      (predicate : Term V M → Term V M → Bool) (i : ℕ) (t : Term V M) (rest : List (Term V M))
      (g : Grand V M)
      → Shifted predicate (i + 1) rest g
      → Shifted predicate i (t ∷ rest) g
  shift predicate i t rest g (k, at, found, passes, typed) =
      (suc k, omega arith, found, passes, typed)

  grand_from-Shifted :
      (predicate : Term V M → Term V M → Bool) (i : ℕ) (ts : List (Term V M))
      → All WellTyped ts
      → All (Shifted predicate i ts) (grand_from predicate i ts)
  unfolding grand_from
  grand_from-Shifted predicate i [] h = tt
  grand_from-Shifted predicate i (t ∷ ts) h =
      All-append (Shifted predicate i (t ∷ ts)) (grand_of predicate i t)
        (grand_from predicate (i + 1) ts) (grand_of-Shifted predicate i t ts h.0)
        (All-map (grand_from predicate (i + 1) ts) (shift predicate i t ts)
          (grand_from-Shifted predicate (i + 1) ts h.1))

  pub filter_grand_subterms-Grown :
      (predicate : Term V M → Term V M → Bool) (ts : List (Term V M))
      → All WellTyped ts
      → All (Grown predicate ts) (filter_grand_subterms ts predicate)
  unfolding filter_grand_subterms
  filter_grand_subterms-Grown predicate ts h =
      All-map (grand_from predicate 0 ts)
        (λ g (k, at, found, passes, typed). record {
          parent_at = subst (λ n. get_elem? ts n ≡ some g.parent) (sym (at ∙ zero_add k)) found;
          passes = passes;
          typed = typed;
        })
        (grand_from-Shifted predicate 0 ts h)
    where
      zero_add : (k : ℕ) → 0 + k ≡ k
      zero_add k = omega arith

  pub get_elem?-some_lt :
      (ts : List (Term V M)) (i : ℕ) {t : Term V M} → get_elem? ts i ≡ some t → i < length ts
  get_elem?-some_lt [] i e = cc
  get_elem?-some_lt (t ∷ ts) zero e = omega arith
  get_elem?-some_lt (t ∷ ts) (suc i) e = omega (arith, get_elem?-some_lt ts i e)
