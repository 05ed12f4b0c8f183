-- ===== src/Algebra/Subterms.antt =====
-- puffin/src/algebra/term.rs, `Subterms`: searches among the children and grandchildren of a term.
use tlspuffin.Base.{ℕ, ◌+◌, Bool, List, [], ◌∷◌, ◌++◌, map, Option, find, keep}
use tlspuffin.Algebra.Shape.{type_eq}
use tlspuffin.Algebra.Term.{Term, variable, application, get_type_shape, to_list}

-- A grandchild with its parent and the parent's index.
pub record Grand (V M : Type 0) : Type 0 where
  pub index : ℕ
  pub parent : Term V M
  pub grand_subterm : Term V M

module _ {V M : Type 0} where
  unfoldable pub same_shape : Term V M → Term V M → Bool
  unfolding type_eq
  same_shape a b = type_eq (get_type_shape a) (get_type_shape b)

  unfoldable pub find_subterm : List (Term V M) → (Term V M → Bool) → Option (Term V M)
  find_subterm ts predicate = find predicate ts

  unfoldable pub find_subterm_same_shape : List (Term V M) → Term V M → Option (Term V M)
  unfolding find_subterm same_shape
  find_subterm_same_shape ts term = find_subterm ts (same_shape term)

  -- The grandchildren below one child.
  unfoldable pub grand_of : (Term V M → Term V M → Bool) → ℕ → Term V M → List (Grand V M)
  grand_of predicate i (variable v) = []
  grand_of predicate i (application f ts) =
      map (λ g. record { index = i; parent = application f ts; grand_subterm = g })
        (keep (predicate (application f ts)) (to_list ts))

  unfoldable pub grand_from : (Term V M → Term V M → Bool) → ℕ → List (Term V M) → List (Grand V M)
  unfolding grand_of
  grand_from predicate i [] = []
  grand_from predicate i (t ∷ ts) = grand_of predicate i t ++ grand_from predicate (i + 1) ts

  unfoldable pub filter_grand_subterms :
      List (Term V M) → (Term V M → Term V M → Bool) → List (Grand V M)
  unfolding grand_from
  filter_grand_subterms ts predicate = grand_from predicate 0 ts
