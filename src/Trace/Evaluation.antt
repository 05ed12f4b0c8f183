-- ===== src/Trace/Evaluation.antt =====
-- puffin/src/algebra/term.rs, `Term::evaluate`: a term computed to a boxed value.
use Prim.Native.String.{String}
use tlspuffin.Base.{ℕ, List, [], ◌∷◌, none, some, Result, ok, err, bind, map_err}
use tlspuffin.Agent.{AgentName}
use tlspuffin.Algebra.Shape.{TypeShape, FnError}
use tlspuffin.Algebra.Term.{Term, Terms, Variable, variable, application, nil, cons}
use tlspuffin.Trace.Context.{Matcher, Environment, find_variable, find_last_claim}

-- puffin/src/error.rs. A variable that is not found is reported with its type.
pub data Error : Type 0 where
  fn_error : FnError → Error
  unable_to_find : TypeShape → Error
  put : String → Error
  io : String → Error
  agent : AgentName → Error
  no_factory : String → Error
  stream : String → Error
  extraction : Error
  security_claim : String → Error

module _ {V M : Type 0} (type_id : V → ℕ) (m : Matcher M) where
  -- A variable is looked up in the knowledge, and else among the claims.
  unfoldable pub evaluate_variable : Environment V M → Variable M → Result Error V
  unfolding find_variable find_last_claim
  evaluate_variable env v = elim (find_variable type_id m env.knowledge v.typ v.query) [
    | some value ↦ ok value
    | none ↦ elim (find_last_claim env.claims v.query.agent_name v.typ) [
      | some claim ↦ ok claim.inner
      | none ↦ err (unable_to_find v.typ)
    ]
  ]

  unfoldable mutual
    unfolding evaluate_variable

    pub evaluate : Environment V M → Term V M → Result Error V
    evaluate env (variable v) = evaluate_variable env v
    evaluate env (application func args) =
        bind (evaluate_args env args)
          (λ dynamic_args. map_err fn_error (func.dynamic_fn dynamic_args))

    pub evaluate_args : Environment V M → Terms V M → Result Error (List V)
    evaluate_args env nil = ok []
    evaluate_args env (cons term terms) =
        bind (evaluate env term)
          (λ data_value. bind (evaluate_args env terms) (λ rest. ok (data_value ∷ rest)))
