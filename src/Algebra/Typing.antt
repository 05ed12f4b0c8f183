-- ===== src/Algebra/Typing.antt =====
-- Well-typed terms: each function symbol is applied to as many subterms as it has argument types,
-- and the subterms' types are those, by type id.
use tlspuffin.Base.{◌≡◌, true, ◌↔◌, List, [], ◌∷◌, arith, ==_iff}
use tlspuffin.Algebra.Shape.{TypeShape, type_eq, types_eq}
use tlspuffin.Algebra.Term.{Term, Terms, variable, application, nil, cons, get_type_shape}

abbrev pub SameType : TypeShape → TypeShape → Type 0
SameType a b = a.inner_type_id ≡ b.inner_type_id

module _ {V M : Type 0} where
  unfoldable mutual
    pub WellTyped : Term V M → Type 0
    WellTyped (variable v) = Unit
    WellTyped (application f ts) = Fits ts f.shape.argument_types

    pub Fits : Terms V M → List TypeShape → Type 0
    Fits nil [] = Unit
    Fits nil (b ∷ bs) = ⊥
    Fits (cons t ts) [] = ⊥
    Fits (cons t ts) (b ∷ bs) = SameType (get_type_shape t) b × WellTyped t × Fits ts bs

  abbrev pub HasType : Term V M → TypeShape → Type 0
  HasType t typ = WellTyped t × SameType (get_type_shape t) typ

pub type_eq_iff : (a b : TypeShape) → (type_eq a b ≡ true) ↔ SameType a b
unfolding type_eq
type_eq_iff a b = ==_iff a.inner_type_id b.inner_type_id

-- Argument lists that are compared equal fit the same subterms.
pub types_eq-Fits :
    {V M : Type 0} (ts : Terms V M) (xs ys : List TypeShape)
    → types_eq xs ys ≡ true
    → Fits ts xs
    → Fits ts ys
unfolding types_eq WellTyped
types_eq-Fits nil [] [] e h = tt
types_eq-Fits nil [] (y ∷ ys) e h = cc
types_eq-Fits nil (x ∷ xs) ys e h = absurd h
types_eq-Fits (cons t ts) [] ys e h = absurd h
types_eq-Fits (cons t ts) (x ∷ xs) [] e h = cc
types_eq-Fits (cons t ts) (x ∷ xs) (y ∷ ys) e h =
    (ground arith, h.1, types_eq-Fits ts xs ys (ground arith) h.2)
