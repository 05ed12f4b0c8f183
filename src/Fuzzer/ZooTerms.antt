-- ===== src/Fuzzer/ZooTerms.antt =====
-- What a term of the zoo is, and the grouping of a signature's symbols by return type.
use tlspuffin.Base.{
  ℕ, suc, ◌≤◌, ◌≡◌, refl, sym, ◌∙◌, subst, List, [], ◌∷◌, Option, none, some, max, arith, All,
  All-append, Bool-cases, inl, inr,
}
use tlspuffin.Algebra.Shape.{TypeShape, type_eq}
use tlspuffin.Algebra.Term.{Term, Terms, variable, application, nil, cons}
use tlspuffin.Algebra.Typing.{WellTyped, Fits, HasType, SameType, type_eq_iff}
use tlspuffin.Algebra.Signature.{
  FunctionDefinition, get_typ, group_insert, group_by_typ, new_signature,
}
use tlspuffin.Fuzzer.Zoo.{max_depth}

module _ {V M : Type 0} where
  unfoldable mutual
    pub depth : Term V M → ℕ
    depth (variable v) = 1
    depth (application f ts) = suc (depth_terms ts)

    pub depth_terms : Terms V M → ℕ
    depth_terms nil = 0
    depth_terms (cons t ts) = max (depth t) (depth_terms ts)

  -- A term without variables.
  unfoldable mutual
    pub IsClosed : Term V M → Type 0
    IsClosed (variable v) = ⊥
    IsClosed (application f ts) = AreClosed ts

    pub AreClosed : Terms V M → Type 0
    AreClosed nil = Unit
    AreClosed (cons t ts) = IsClosed t × AreClosed ts

  -- A generated term of a type, with a bound on its depth.
  pub record IsMade (n : ℕ) (typ : TypeShape) (t : Term V M) : Type 0 where
    pub has_type : HasType t typ
    pub closed : IsClosed t
    pub shallow : depth t ≤ n

  pub record AreMade (n : ℕ) (types : List TypeShape) (ts : Terms V M) : Type 0 where
    pub fits : Fits ts types
    pub closed : AreClosed ts
    pub shallow : depth_terms ts ≤ n

  pub AreMade-cons :
      (n : ℕ) (typ : TypeShape) (types : List TypeShape) (t : Term V M) (ts : Terms V M)
      → IsMade n typ t
      → AreMade n types ts
      → AreMade n (typ ∷ types) (cons t ts)
  unfolding WellTyped depth IsClosed
  AreMade-cons n typ types t ts h k = record {
    fits = (h.has_type.1, h.has_type.0, k.fits);
    closed = (h.closed, k.closed);
    shallow = omega (arith, h.shallow, k.shallow);
  }

  -- What a term of the zoo is.
  abbrev pub IsZooTerm : Term V M → Type 0
  IsZooTerm t = WellTyped t × IsClosed t × (depth t ≤ max_depth)

abbrev pub HoldsSome : {A : Type 0} → (A → Type 0) → Option A → Type 0
HoldsSome P none = Unit
HoldsSome P (some a) = P a

-- A step of a fallible loop: nothing is made, or the rest is made from what the step gave.
pub HoldsSome-step :
    {A B R : Type 0} (P : B → Type 0) (o : Option A) (r : R) (next : A → Option B × R)
    → ((a : A) → o ≡ some a → HoldsSome P (next a).0)
    → HoldsSome P
        (let step : Option B × R = elim o [ none ↦ (none, r) | some a ↦ next a ] in step.0)
HoldsSome-step P none r next h = tt
HoldsSome-step P (some a) r next h = h a refl

pub HoldsSome-eq :
    {A : Type 0} (P : A → Type 0) (o : Option A) (a : A) → o ≡ some a → HoldsSome P o → P a
HoldsSome-eq P o a e h = subst (HoldsSome P) e h

-- The entries of the table are grouped by return type.
abbrev pub AllReturn : {V : Type 0} → TypeShape → List (FunctionDefinition V) → Type 0
AllReturn typ ds = All (λ d. SameType d.shape.return_type typ) ds

abbrev pub IsGrouped : {V : Type 0} → List (TypeShape × List (FunctionDefinition V)) → Type 0
IsGrouped m = All (λ e. AllReturn e.0 e.1) m

module _ {V : Type 0} where
  pub get_typ-AllReturn :
      (typ : TypeShape) (m : List (TypeShape × List (FunctionDefinition V)))
      → IsGrouped m
      → HoldsSome (AllReturn typ) (get_typ typ m)
  unfolding get_typ
  get_typ-AllReturn typ [] h = tt
  get_typ-AllReturn typ ((j, ds) ∷ m) h = elim (Bool-cases (type_eq j typ)) [
    | inl e ↦ rw e (retype ds ((type_eq_iff j typ).0 e) h.0)
    | inr e ↦ rw e (get_typ-AllReturn typ m h.1)
  ]
    where
      retype :
          (xs : List (FunctionDefinition V)) → SameType j typ → AllReturn j xs → AllReturn typ xs
      retype [] same all = tt
      retype (x ∷ xs) same all = (all.0 ∙ same, retype xs same all.1)

  group_insert-IsGrouped :
      (d : FunctionDefinition V) (m : List (TypeShape × List (FunctionDefinition V)))
      → IsGrouped m
      → IsGrouped (group_insert d m)
  unfolding group_insert
  group_insert-IsGrouped d [] h = ((refl, tt), tt)
  group_insert-IsGrouped d ((typ, ds) ∷ m) h = elim (Bool-cases (type_eq typ d.shape.return_type)) [
    | inl e ↦ rw e (
      All-append (λ x. SameType x.shape.return_type typ) ds (d ∷ []) h.0
          (sym ((type_eq_iff typ d.shape.return_type).0 e), tt),
      h.1,
    )
    | inr e ↦ rw e (h.0, group_insert-IsGrouped d m h.1)
  ]

  group_by_typ-IsGrouped :
      (ds : List (FunctionDefinition V)) (m : List (TypeShape × List (FunctionDefinition V)))
      → IsGrouped m
      → IsGrouped (group_by_typ ds m)
  unfolding group_by_typ
  group_by_typ-IsGrouped [] m h = h
  group_by_typ-IsGrouped (d ∷ ds) m h =
      group_by_typ-IsGrouped ds (group_insert d m) (group_insert-IsGrouped d m h)

  pub new_signature-IsGrouped :
      (ds : List (FunctionDefinition V)) → IsGrouped (new_signature ds).functions_by_typ
  unfolding new_signature
  new_signature-IsGrouped ds = group_by_typ-IsGrouped ds [] tt
