-- ===== src/Algebra/Shape.antt =====
-- puffin/src/algebra/dynamic_function.rs, error.rs and atoms.rs: type shapes, function shapes, and
-- dynamically typed functions. `V` is the type of boxed values, `Box<dyn Any>`, and `type_id` reads
-- the type id of a box. An error's text is a constructor that holds the values printed in it.
use Prim.Native.String.{String}
use text.Mathlib.Text.{◌==◌ as str_eq}
use tlspuffin.Base.{
  ℕ, ◌+◌, ◌%◌, ◌^◌, Bool, true, false, ◌&&◌, List, [], ◌∷◌, length, ◌==◌, Result, ok, err, bind,
  get_elem?, none, some, if◌then◌else◌,
}

-- Two shapes are compared by their type ids alone.
pub record TypeShape : Type 0 where
  pub inner_type_id : ℕ
  pub name : String

unfoldable pub type_eq : TypeShape → TypeShape → Bool
type_eq a b = a.inner_type_id == b.inner_type_id

unfoldable pub types_eq : List TypeShape → List TypeShape → Bool
unfolding type_eq
types_eq [] [] = true
types_eq (a ∷ xs) (b ∷ ys) = type_eq a b && types_eq xs ys
types_eq _ _ = false

pub record DynamicFunctionShape : Type 0 where
  pub name : String
  pub argument_types : List TypeShape
  pub return_type : TypeShape

-- Two function shapes are compared by name: names are unique.
unfoldable pub shape_eq : DynamicFunctionShape → DynamicFunctionShape → Bool
shape_eq a b = str_eq a.name b.name

-- The number of arguments, as a u16.
unfoldable pub arity : DynamicFunctionShape → ℕ
arity s = length s.argument_types % 2 ^ 16

unfoldable pub is_constant : DynamicFunctionShape → Bool
unfolding arity
is_constant s = arity s == 0

pub data Reason : Type 0 where
  missing_argument : ℕ → String → Reason
  mismatched_argument : ℕ → String → Reason
  other : String → Reason

pub data FnError : Type 0 where
  unknown : Reason → FnError
  crypto : String → FnError

abbrev pub DynamicFunction : Type 0 → Type 0
DynamicFunction V = List V → Result FnError V

-- The arguments of the call that `dynamic_fn!` expands to, read one after the other.
unfoldable pub downcast_args :
    {V : Type 0} → (V → ℕ) → String → ℕ → List TypeShape → List V → Result FnError (List V)
downcast_args type_id name index [] args = ok []
downcast_args type_id name index (t ∷ ts) args =
    let rest = downcast_args type_id name (index + 1) ts args in
    elim (get_elem? args index) [
      | none ↦ err (unknown (missing_argument (index + 1) name))
      | some arg ↦
          if type_id arg == t.inner_type_id
          then bind rest (λ more. ok (arg ∷ more))
          else err (unknown (mismatched_argument (index + 1) name))
    ]

-- A concrete function made callable with boxed values. Arguments beyond its arity are ignored.
unfoldable pub make_dynamic :
    {V : Type 0} → (V → ℕ) → DynamicFunctionShape → DynamicFunction V → DynamicFunction V
unfolding downcast_args
make_dynamic type_id shape concrete args =
    bind (downcast_args type_id shape.name 0 shape.argument_types args) concrete
