-- ===== src/Tests/FuzzerRuns.antt =====
-- The fuzzer's theorems at small traces.
use tlspuffin.Base.{ℕ, [], ◌∷◌, none, arith, All}
use tlspuffin.Algebra.Typing.{WellTyped}
use tlspuffin.Trace.Defs.{TraceTyped}
use tlspuffin.Fuzzer.Sampling.{default_constraints}
use tlspuffin.Fuzzer.TypeSafety.{
  Leaves, replace_reuse_mutate-TraceTyped, remove_and_lift_mutate-TraceTyped,
}
use tlspuffin.Fuzzer.SymbolSafety.{
  FewArguments, IsStocked, generate_mutate-TraceTyped, replace_match_mutate-TraceTyped,
}
use tlspuffin.Algebra.Signature.{new_signature}
use tlspuffin.Fuzzer.ZooTerms.{IsZooTerm, new_signature-IsGrouped}
use tlspuffin.Fuzzer.ZooLaws.{generate_zoo-IsZooTerm}
use tlspuffin.Fuzzer.Zoo.{generate_zoo}
use tlspuffin.Fuzzer.Lengths.{Skips, Repeats, skip_mutate-Skips, repeat_mutate-Repeats}
use tlspuffin.Fuzzer.Mutators.{
  generate_mutate, GenerateMutator, replace_reuse_mutate, remove_and_lift_mutate,
  replace_match_mutate, skip_mutate, repeat_mutate,
}
use tlspuffin.Tests.Fixtures.{
  fn_seq, fn_seq_1, fn_hello, fn_wrap, Value, small_trace, small_signature, counting,
}

small_trace-TraceTyped : TraceTyped small_trace
unfolding WellTyped
small_trace-TraceTyped = omega arith

replace_reuse_mutate-TraceTyped_example :
    Leaves TraceTyped (replace_reuse_mutate counting default_constraints small_trace 3)
replace_reuse_mutate-TraceTyped_example =
    replace_reuse_mutate-TraceTyped counting default_constraints small_trace 3
      small_trace-TraceTyped

remove_and_lift_mutate-TraceTyped_example :
    Leaves TraceTyped (remove_and_lift_mutate counting default_constraints small_trace 0)
remove_and_lift_mutate-TraceTyped_example =
    remove_and_lift_mutate-TraceTyped counting default_constraints small_trace 0
      small_trace-TraceTyped

small_signature-FewArguments : FewArguments small_signature.functions
unfolding new_signature
small_signature-FewArguments = ground arith

replace_match_mutate-TraceTyped_example :
    Leaves TraceTyped
      (replace_match_mutate counting small_signature default_constraints small_trace 2)
replace_match_mutate-TraceTyped_example =
    replace_match_mutate-TraceTyped counting small_signature default_constraints small_trace 2
      small_signature-FewArguments small_trace-TraceTyped

skip_mutate-Skips_example : Leaves (Skips 1 small_trace) (skip_mutate counting 1 small_trace 0)
skip_mutate-Skips_example = skip_mutate-Skips counting 1 small_trace 0 small_trace-TraceTyped

repeat_mutate-Repeats_example :
    Leaves (Repeats 5 small_trace) (repeat_mutate counting 5 small_trace 0)
repeat_mutate-Repeats_example =
    repeat_mutate-Repeats counting 5 small_trace 0 small_trace-TraceTyped

generate_zoo-IsZooTerm_example : All IsZooTerm (generate_zoo {M = ℕ} counting small_signature 0).0
generate_zoo-IsZooTerm_example =
    generate_zoo-IsZooTerm ℕ counting small_signature
      (new_signature-IsGrouped (fn_seq ∷ fn_seq_1 ∷ fn_hello ∷ fn_wrap ∷ [])) 0

abbrev small_generator : GenerateMutator Value ℕ
small_generator = record {
  mutation_counter = 0;
  refresh_zoo_after = 3;
  constraints = default_constraints;
  zoo = none;
  signature = small_signature;
}

small_generator-IsStocked : IsStocked small_generator
small_generator-IsStocked = record {
  zoo_typed = tt;
  grouped = new_signature-IsGrouped (fn_seq ∷ fn_seq_1 ∷ fn_hello ∷ fn_wrap ∷ []);
}

generate_mutate-TraceTyped_example :
    IsStocked (generate_mutate counting small_generator small_trace 1).0
    × Leaves TraceTyped (generate_mutate counting small_generator small_trace 1).1
generate_mutate-TraceTyped_example =
    generate_mutate-TraceTyped counting small_generator small_trace 1 (omega arith)
      small_generator-IsStocked small_trace-TraceTyped
