-- ===== src/Tests/SwapRuns.antt =====
-- The theorems on SWAP and on sampling at small traces.
use tlspuffin.Base.{ℕ, ◌+◌, ◌≡◌, refl, true, false, [], ◌∷◌, none, some, arith, is_some}
use tlspuffin.Algebra.Shape.{type_eq}
use tlspuffin.Algebra.Term.{Term, application, nil, cons, size, get_type_shape}
use tlspuffin.Algebra.Typing.{WellTyped, HasType}
use tlspuffin.Algebra.Path.{Mut, subterm_at, find_term_by_term_path_mut}
use tlspuffin.Algebra.Reference.{find_term_by_term_path_mut_lem}
use tlspuffin.Trace.Defs.{Trace, TraceTyped, of_parts, no_traces, steps}
use tlspuffin.Fuzzer.Sampling.{
  Sampling, default_constraints, reservoir_sample, sample_steps, out_of_bounds,
}
use tlspuffin.Fuzzer.Enumeration.{sample_steps-candidates, candidates, consider_all}
use tlspuffin.Fuzzer.Positions.{recipe_at}
use tlspuffin.Fuzzer.Reservoir.{reservoir_sample_sound, reservoir_sample_complete}
use tlspuffin.Fuzzer.Choose.{find_term_mut}
use tlspuffin.Fuzzer.SwapSafety.{swap_terms-TraceTyped, swap_terms_ill_typed}
use tlspuffin.Fuzzer.Targets.{term_at}
use tlspuffin.Fuzzer.Mutators.{swap_terms}
use tlspuffin.Tests.Fixtures.{
  Value, fn_hello, fn_wrap, fn_seq_1, seq, hello, wrapped, twice_wrapped, small_trace, nested_trace,
  counting, step_of,
}

abbrev seq_1 : Term Value ℕ
seq_1 = application fn_seq_1 nil

small_trace-TraceTyped : TraceTyped small_trace
unfolding WellTyped
small_trace-TraceTyped = omega arith

nested_trace-TraceTyped : TraceTyped nested_trace
unfolding WellTyped
nested_trace-TraceTyped = omega arith

abbrev in_wrapped : Mut Value ℕ (Term Value ℕ)
in_wrapped = record {
  target = seq;
  write = λ u. application fn_wrap (cons (application fn_hello (cons u nil)) nil);
}

in_wrapped-found : find_term_by_term_path_mut wrapped (0 ∷ 0 ∷ []) ≡ some in_wrapped
unfolding find_term_by_term_path_mut
in_wrapped-found = refl

find_term_by_term_path_mut_lem_example :
    (subterm_at wrapped (0 ∷ 0 ∷ []) ≡ some seq)
    × (in_wrapped.write seq ≡ wrapped)
    × (find_term_by_term_path_mut (in_wrapped.write seq_1) (0 ∷ 0 ∷ [])
        ≡ some (record { target = seq_1; write = in_wrapped.write }))
    × (size (in_wrapped.write seq_1) + size seq ≡ size wrapped + size seq_1)
find_term_by_term_path_mut_lem_example =
    find_term_by_term_path_mut_lem wrapped (0 ∷ 0 ∷ []) in_wrapped seq_1 in_wrapped-found

wrapped-WellTyped : WellTyped wrapped
unfolding WellTyped
wrapped-WellTyped = omega arith

seq_1-HasType : HasType seq_1 (get_type_shape seq)
unfolding WellTyped
seq_1-HasType = (tt, refl)

sample-found :
    (reservoir_sample counting (λ t. true) small_trace default_constraints 0).0
    ≡ some (wrapped, (0, 0 ∷ []))
unfolding reservoir_sample size default_constraints
sample-found = refl

reservoir_sample_sound_example :
    (recipe : Term Value ℕ) × (recipe_at (steps small_trace) 0 ≡ some recipe)
    × (out_of_bounds default_constraints recipe ≡ false)
    × (subterm_at recipe (0 ∷ []) ≡ some wrapped)
    × (true ≡ true)
reservoir_sample_sound_example =
    reservoir_sample_sound counting (λ t. true) small_trace default_constraints 0 wrapped 0 (0 ∷ [])
      sample-found

twice_wrapped-recipe : recipe_at (steps small_trace) 0 ≡ some twice_wrapped
unfolding recipe_at
twice_wrapped-recipe = refl

twice_wrapped-in_bounds : out_of_bounds default_constraints twice_wrapped ≡ false
unfolding out_of_bounds size default_constraints
twice_wrapped-in_bounds = refl

hello-there : subterm_at twice_wrapped (0 ∷ 0 ∷ []) ≡ some hello
unfolding subterm_at
hello-there = refl

reservoir_sample_complete_example :
    is_some
      (reservoir_sample counting
        (λ t. type_eq (get_type_shape t) fn_hello.shape.return_type)
        small_trace
        default_constraints
        5).0
    ≡ true
unfolding type_eq
reservoir_sample_complete_example =
    reservoir_sample_complete counting (λ t. type_eq (get_type_shape t) fn_hello.shape.return_type)
      small_trace default_constraints 5 0 (0 ∷ 0 ∷ []) twice_wrapped hello twice_wrapped-recipe
      twice_wrapped-in_bounds hello-there refl

abbrev fresh : Sampling Value ℕ ℕ
fresh = record { reservoir = none; visited = 0; rand = 4 }

sample_steps-candidates_example :
    sample_steps counting (λ t. true) default_constraints 0 (steps small_trace) fresh
    ≡ consider_all counting (λ t. true) (candidates default_constraints 0 (steps small_trace)) fresh
sample_steps-candidates_example =
    sample_steps-candidates counting (λ t. true) default_constraints 0 (steps small_trace) fresh

abbrev whole_recipe : Mut Value ℕ (Trace Value ℕ)
whole_recipe = record {
  target = twice_wrapped;
  write = λ u. of_parts [] (step_of u ∷ step_of hello ∷ []) no_traces;
}

whole_recipe-found : find_term_mut small_trace (0, []) ≡ some whole_recipe
unfolding find_term_mut find_term_by_term_path_mut
whole_recipe-found = refl

hello-at : term_at (steps small_trace) (1, []) ≡ some hello
unfolding term_at recipe_at subterm_at
hello-at = refl

hello-WellTyped : WellTyped hello
unfolding WellTyped
hello-WellTyped = omega arith

swap_terms-TraceTyped_example : TraceTyped (swap_terms small_trace hello (1, []) whole_recipe)
swap_terms-TraceTyped_example =
    swap_terms-TraceTyped small_trace hello (1, []) (0, []) whole_recipe small_trace-TraceTyped
      hello-at hello-WellTyped whole_recipe-found refl (λ above. omega (arith, above.0))

abbrev outer : Mut Value ℕ (Trace Value ℕ)
outer = record { target = wrapped; write = λ u. of_parts [] (step_of u ∷ []) no_traces }

abbrev moved : Mut Value ℕ (Trace Value ℕ)
moved = record {
  target = seq;
  write = λ u. of_parts [] (step_of (application fn_hello (cons u nil)) ∷ []) no_traces;
}

outer-found : find_term_mut nested_trace (0, []) ≡ some outer
unfolding find_term_mut find_term_by_term_path_mut
outer-found = refl

moved-found : find_term_mut (outer.write hello) (0, 0 ∷ []) ≡ some moved
unfolding find_term_mut find_term_by_term_path_mut
moved-found = refl

swap_terms_ill_typed_example : ¬ TraceTyped (swap_terms nested_trace hello (0, 0 ∷ []) outer)
swap_terms_ill_typed_example =
    swap_terms_ill_typed nested_trace hello (0, []) 0 0 [] outer moved nested_trace-TraceTyped
      hello-WellTyped outer-found refl moved-found (λ same. omega (arith, same))
