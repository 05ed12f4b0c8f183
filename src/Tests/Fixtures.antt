-- ===== src/Tests/Fixtures.antt =====
-- A small signature, a counting generator and a few traces, for the tests.
use Prim.Native.String.{String}
use tlspuffin.Base.{ℕ, suc, ◌+◌, ◌-◌, ◌%◌, ◌≤◌, ◌<◌, List, [], ◌∷◌, arith, ok, ◌==◌}
use tlspuffin.Algebra.Shape.{TypeShape, make_dynamic}
use tlspuffin.Algebra.Term.{Term, Function, application, nil, cons}
use tlspuffin.Algebra.Signature.{Signature, new_signature}
use tlspuffin.Trace.Defs.{Trace, Step, input, of_parts, no_traces}
use tlspuffin.Trace.Context.{Matcher}
use tlspuffin.Fuzzer.Rand.{Rand}

-- A boxed value is its type id and a number.
abbrev pub Value : Type 0
Value = ℕ × ℕ

abbrev pub value_type : Value → ℕ
value_type v = v.0

abbrev pub number : TypeShape
number = record { inner_type_id = 1; name = "u32" }

abbrev pub message : TypeShape
message = record { inner_type_id = 2; name = "Message" }

abbrev pub symbol : String → List TypeShape → TypeShape → ℕ → Function Value
symbol name argument_types return_type payload = record {
  shape = record { name = name; argument_types = argument_types; return_type = return_type };
  dynamic_fn =
      make_dynamic value_type
        (record { name = name; argument_types = argument_types; return_type = return_type })
        (λ args. ok (return_type.inner_type_id, payload));
}

abbrev pub fn_seq : Function Value
fn_seq = symbol "fn_seq" [] number 7

abbrev pub fn_seq_1 : Function Value
fn_seq_1 = symbol "fn_seq_1" [] number 8

abbrev pub fn_hello : Function Value
fn_hello = symbol "fn_hello" (number ∷ []) message 20

abbrev pub fn_wrap : Function Value
fn_wrap = symbol "fn_wrap" (message ∷ []) message 21

abbrev pub seq : Term Value ℕ
seq = application fn_seq nil

abbrev pub hello : Term Value ℕ
hello = application fn_hello (cons seq nil)

abbrev pub wrapped : Term Value ℕ
wrapped = application fn_wrap (cons hello nil)

abbrev pub twice_wrapped : Term Value ℕ
twice_wrapped = application fn_wrap (cons wrapped nil)

abbrev pub step_of : Term Value ℕ → Step Value ℕ
step_of recipe = record { agent = 0; action = input recipe }

abbrev pub small_trace : Trace Value ℕ
small_trace = of_parts [] (step_of twice_wrapped ∷ step_of hello ∷ []) no_traces

abbrev pub nested_trace : Trace Value ℕ
nested_trace = of_parts [] (step_of wrapped ∷ []) no_traces

abbrev pub small_signature : Signature Value
small_signature = new_signature (fn_seq ∷ fn_seq_1 ∷ fn_hello ∷ fn_wrap ∷ [])

pub below_bound : (n r : ℕ) → 0 < n → r % n < n
below_bound n r h = omega arith

pub span_bound : (lo hi r : ℕ) → lo ≤ hi → lo + r % (hi - lo + 1) ≤ hi
span_bound lo hi r h = let small = below_bound (hi - lo + 1) r (omega arith) in omega (arith, small)

pub span_start : (lo hi r : ℕ) → lo ≤ hi → lo ≤ lo + r % (hi - lo + 1)
span_start lo hi r h = omega arith

-- A generator that counts.
abbrev pub counting : Rand ℕ
counting = record {
  below = λ n r. (r % n, suc r);
  between = λ lo hi r. (lo + r % (hi - lo + 1), suc r);
  choose_index = λ n r. (r % n, suc r);
  below-lt = below_bound;
  between-ge = span_start;
  between-le = span_bound;
  choose_index-lt = below_bound;
}

abbrev pub exact_matcher : Matcher ℕ
exact_matcher = record { matches = λ a b. a == b; specificity = λ a. a; matcher_eq = λ a b. a == b }
