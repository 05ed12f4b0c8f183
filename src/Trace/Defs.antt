-- ===== src/Trace/Defs.antt =====
-- puffin/src/trace.rs: a trace is a list of steps, each an input with a recipe term or an output.
use tlspuffin.Base.{List, All}
use tlspuffin.Agent.{AgentName, AgentDescriptor}
use tlspuffin.Algebra.Term.{Term}
use tlspuffin.Algebra.Typing.{WellTyped}

pub data Action (V M : Type 0) : Type 0 where
  input : Term V M → Action V M
  output : Action V M

pub record Step (V M : Type 0) : Type 0 where
  pub agent : AgentName
  pub action : Action V M

-- `Traces` is the vector of prior traces.
mutual
  pub data Trace (V M : Type 0) : Type 0 where
    of_parts : List AgentDescriptor → List (Step V M) → Traces V M → Trace V M

  pub data Traces (V M : Type 0) : Type 0 where
    no_traces : Traces V M
    one_more : Trace V M → Traces V M → Traces V M

module _ {V M : Type 0} where
  abbrev pub descriptors : Trace V M → List AgentDescriptor
  descriptors (of_parts ds ss ps) = ds

  abbrev pub steps : Trace V M → List (Step V M)
  steps (of_parts ds ss ps) = ss

  abbrev pub prior_traces : Trace V M → Traces V M
  prior_traces (of_parts ds ss ps) = ps

  -- The trace after its steps are mutated in place.
  abbrev pub with_steps : Trace V M → List (Step V M) → Trace V M
  with_steps (of_parts ds ss ps) new_steps = of_parts ds new_steps ps

  -- Every recipe of the trace is well-typed.
  abbrev pub StepTyped : Step V M → Type 0
  StepTyped s = elim s.action [ input recipe ↦ WellTyped recipe | output ↦ Unit {0} ]

  abbrev pub TraceTyped : Trace V M → Type 0
  TraceTyped t = All StepTyped (steps t)
