-- ===== src/Algebra/Signature.antt =====
-- puffin/src/algebra/signature.rs: the universe of function symbols, with its lookup tables. A hash
-- map is an association list without repeated keys.
use Prim.Native.String.{String}
use text.Mathlib.Text.{◌==◌ as str_eq}
use tlspuffin.Base.{ℕ, Bool, List, [], ◌∷◌, ◌++◌, map, Option, none, some, if◌then◌else◌}
use tlspuffin.Algebra.Shape.{TypeShape, type_eq, types_eq}
use tlspuffin.Algebra.Term.{Function, Variable}

-- A function symbol's definition: its shape and its dynamic function.
abbrev pub FunctionDefinition : Type 0 → Type 0
FunctionDefinition V = Function V

pub record Signature (V : Type 0) : Type 0 where
  pub functions_by_name : List (String × FunctionDefinition V)
  pub functions_by_typ : List (TypeShape × List (FunctionDefinition V))
  pub functions : List (FunctionDefinition V)
  pub types_by_name : List (String × TypeShape)

-- `insert` and `get` of a hash map with names as keys.
unfoldable pub insert_name {ℓ} : {A : Type ℓ} → String → A → List (String × A) → List (String × A)
insert_name k a [] = (k, a) ∷ []
insert_name k a ((j, b) ∷ m) = if str_eq j k then (j, a) ∷ m else (j, b) ∷ insert_name k a m

unfoldable pub get_name {ℓ} : {A : Type ℓ} → String → List (String × A) → Option A
get_name k [] = none
get_name k ((j, b) ∷ m) = if str_eq j k then some b else get_name k m

-- `collect` into a hash map: a later entry replaces an earlier one.
unfoldable pub collect_names {ℓ} :
    {A : Type ℓ} → List (String × A) → List (String × A) → List (String × A)
unfolding insert_name
collect_names [] m = m
collect_names ((k, a) ∷ xs) m = collect_names xs (insert_name k a m)

unfoldable pub get_typ {ℓ} : {A : Type ℓ} → TypeShape → List (TypeShape × A) → Option A
get_typ k [] = none
get_typ k ((j, b) ∷ m) = if type_eq j k then some b else get_typ k m

unfoldable pub contains_types : List TypeShape → List (List TypeShape) → Bool
contains_types ts [] = Bool.false
contains_types ts (us ∷ seen) = if types_eq ts us then Bool.true else contains_types ts seen

module _ {V : Type 0} where
  -- `into_group_map_by`: each group keeps the order of the definitions.
  unfoldable pub group_insert :
      FunctionDefinition V
      → List (TypeShape × List (FunctionDefinition V))
      → List (TypeShape × List (FunctionDefinition V))
  unfolding type_eq
  group_insert d [] = (d.shape.return_type, d ∷ []) ∷ []
  group_insert d ((typ, ds) ∷ m) =
      if type_eq typ d.shape.return_type
      then (typ, ds ++ d ∷ []) ∷ m
      else (typ, ds) ∷ group_insert d m

  unfoldable pub group_by_typ :
      List (FunctionDefinition V)
      → List (TypeShape × List (FunctionDefinition V))
      → List (TypeShape × List (FunctionDefinition V))
  unfolding group_insert
  group_by_typ [] m = m
  group_by_typ (d ∷ ds) m = group_by_typ ds (group_insert d m)

  -- The argument types and the return type of a function symbol.
  unfoldable pub used_types : FunctionDefinition V → List TypeShape
  used_types d = d.shape.argument_types ++ d.shape.return_type ∷ []

  -- `unique` and `flatten`: the type lists that were not seen before, one after the other.
  unfoldable pub unique_types : List (FunctionDefinition V) → List (List TypeShape) → List TypeShape
  unfolding used_types contains_types
  unique_types [] seen = []
  unique_types (d ∷ ds) seen =
      if contains_types (used_types d) seen
      then unique_types ds seen
      else used_types d ++ unique_types ds (used_types d ∷ seen)

  unfoldable pub new_signature : List (FunctionDefinition V) → Signature V
  unfolding collect_names group_by_typ unique_types
  new_signature definitions = record {
    functions_by_name = collect_names (map (λ d. (d.shape.name, d)) definitions) [];
    functions_by_typ = group_by_typ definitions [];
    functions = definitions;
    types_by_name =
        collect_names (map (λ (t : TypeShape). (t.name, t)) (unique_types definitions [])) [];
  }

unfoldable pub new_var : {M : Type 0} → TypeShape → ℕ → Option M → ℕ → Variable M
new_var type_shape agent_name matcher counter = record {
  typ = type_shape;
  query = record { agent_name = agent_name; matcher = matcher; counter = counter };
}
