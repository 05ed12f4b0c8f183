-- ===== src/Tests/KnowledgeRuns.antt =====
-- The theorems on lookup and evaluation at a small environment.
use tlspuffin.Base.{
  ℕ, ◌≤◌, ◌≡◌, refl, true, List, [], ◌∷◌, Option, none, some, arith, get_elem?, keep, All, ok,
}
use Prim.Native.String.{String}
use mathlib.Core.List.{Perm}
use tlspuffin.Algebra.Term.{Term, Query, variable, application, nil, cons}
use tlspuffin.Algebra.Shape.{TypeShape}
use tlspuffin.Algebra.Typing.{WellTyped}
use tlspuffin.Trace.Context.{Knowledge, Environment, option_specificity, is_possible, find_variable}
use tlspuffin.Trace.Evaluation.{evaluate}
use tlspuffin.Trace.Lookup.{IsSorted, find_variable-ordered, find_variable_least_specific}
use tlspuffin.Trace.Soundness.{IsLinked, AllLinked, Yields, evaluate_sound}
use tlspuffin.Tests.Fixtures.{Value, value_type, number, message, fn_hello, symbol, exact_matcher}

abbrev known : Option ℕ → ℕ → Knowledge Value ℕ
known matcher payload = record { agent_name = 0; matcher = matcher; data_value = (1, payload) }

-- Knowledge of specificity 5, 3 and 4, and some of another agent.
abbrev three_known : List (Knowledge Value ℕ)
three_known =
    known (some 4) 100
    ∷ known (some 2) 200
    ∷ known (some 3) 300
    ∷ record { agent_name = 7; matcher = none; data_value = (1, 400) }
    ∷ []

abbrev any_number : ℕ → Query ℕ
any_number counter = record { agent_name = 0; matcher = none; counter = counter }

second-found :
    find_variable value_type exact_matcher three_known number (any_number 1) ≡ some (1, 300)
unfolding find_variable
second-found = refl

first-found :
    find_variable value_type exact_matcher three_known number (any_number 0) ≡ some (1, 200)
unfolding find_variable
first-found = refl

find_variable-ordered_example :
    (order : List (Knowledge Value ℕ)) × (k : Knowledge Value ℕ) × Perm order
      (keep (is_possible value_type exact_matcher number (any_number 1)) three_known)
    × IsSorted (λ x. option_specificity exact_matcher x.matcher) order
    × (get_elem? order 1 ≡ some k)
    × (is_possible value_type exact_matcher number (any_number 1) k ≡ true)
    × (k.data_value ≡ (1, 300))
find_variable-ordered_example =
    find_variable-ordered value_type exact_matcher three_known number (any_number 1) (1, 300)
      second-found

find_variable_least_specific_example :
    (k : Knowledge Value ℕ) × (k.data_value ≡ (1, 200))
    × (is_possible value_type exact_matcher number (any_number 0) k ≡ true)
    × All
        (λ x.
          option_specificity exact_matcher k.matcher ≤ option_specificity exact_matcher x.matcher)
        (keep (is_possible value_type exact_matcher number (any_number 0)) three_known)
find_variable_least_specific_example =
    find_variable_least_specific value_type exact_matcher three_known number (any_number 0) (1, 200)
      refl first-found

symbol-IsLinked :
    (name : String) (argument_types : List TypeShape) (return_type : TypeShape) (payload : ℕ)
    → IsLinked value_type (symbol name argument_types return_type payload)
symbol-IsLinked name argument_types return_type payload = record {
  concrete = λ args. ok (return_type.inner_type_id, payload);
  made = refl;
  returns = λ args. refl;
}

abbrev open_hello : Term Value ℕ
open_hello =
    application fn_hello (cons (variable (record { typ = number; query = any_number 1 })) nil)

open_hello-WellTyped : WellTyped open_hello
unfolding WellTyped
open_hello-WellTyped = omega arith

open_hello-AllLinked : AllLinked value_type open_hello
unfolding AllLinked
open_hello-AllLinked = (symbol-IsLinked "fn_hello" (number ∷ []) message 20, (tt, tt))

abbrev known_environment : Environment Value ℕ
known_environment = record { knowledge = three_known; claims = [] }

evaluate_sound_example :
    Yields value_type 2 (evaluate value_type exact_matcher known_environment open_hello)
evaluate_sound_example =
    evaluate_sound value_type exact_matcher known_environment tt open_hello open_hello-WellTyped
      open_hello-AllLinked
