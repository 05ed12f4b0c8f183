-- ===== src/Algebra/Term.antt =====
-- puffin/src/algebra/term.rs and atoms.rs: terms over function symbols and variables.
-- The ids `unique_id` and `resistant_id`, which `rand::random` draws and only the drawing of graphs
-- reads, are left out, so a clone of a term is the term.
use Prim.Native.String.{String}
use tlspuffin.Base.{ℕ, ◌+◌, Bool, true, false, List, [], ◌∷◌, ◌++◌, Option}
use tlspuffin.Algebra.Shape.{TypeShape, DynamicFunctionShape, DynamicFunction}

-- How a variable is looked up in the attacker's knowledge.
pub record Query (M : Type 0) : Type 0 where
  pub agent_name : ℕ
  pub matcher : Option M
  pub counter : ℕ

pub record Variable (M : Type 0) : Type 0 where
  pub typ : TypeShape
  pub query : Query M

-- The function symbol's `FnContainer`.
pub record Function (V : Type 0) : Type 0 where
  pub shape : DynamicFunctionShape
  pub dynamic_fn : DynamicFunction V

-- `Terms` is the vector of subterms.
mutual
  pub data Term (V M : Type 0) : Type 0 where
    variable : Variable M → Term V M
    application : Function V → Terms V M → Term V M

  pub data Terms (V M : Type 0) : Type 0 where
    nil : Terms V M
    cons : Term V M → Terms V M → Terms V M

module _ {V M : Type 0} where
  abbrev pub to_list : Terms V M → List (Term V M)
  to_list nil = []
  to_list (cons t ts) = t ∷ to_list ts

  abbrev pub of_list : List (Term V M) → Terms V M
  of_list [] = nil
  of_list (t ∷ ts) = cons t (of_list ts)

  abbrev pub get_type_shape : Term V M → TypeShape
  get_type_shape (variable v) = v.typ
  get_type_shape (application f ts) = f.shape.return_type

  unfoldable pub is_leaf : Term V M → Bool
  is_leaf (variable v) = true
  is_leaf (application f nil) = true
  is_leaf (application f (cons t ts)) = false

  unfoldable pub term_name : Term V M → String
  term_name (variable v) = v.typ.name
  term_name (application f ts) = f.shape.name

  unfoldable mutual
    pub size : Term V M → ℕ
    size (variable v) = 1
    size (application f ts) = size_terms ts + 1

    pub size_terms : Terms V M → ℕ
    size_terms nil = 0
    size_terms (cons t ts) = size t + size_terms ts

  -- The iteration over a term: the subterms in post-order, the term itself last.
  unfoldable mutual
    pub append : Term V M → List (Term V M) → List (Term V M)
    append (variable v) out = out ++ variable v ∷ []
    append (application f ts) out = append_terms ts out ++ application f ts ∷ []

    pub append_terms : Terms V M → List (Term V M) → List (Term V M)
    append_terms nil out = out
    append_terms (cons t ts) out = append_terms ts (append t out)

  unfoldable pub into_iter : Term V M → List (Term V M)
  unfolding append
  into_iter t = append t []
