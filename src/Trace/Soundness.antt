-- ===== src/Trace/Soundness.antt =====
-- puffin/src/algebra/term.rs, `Term::evaluate`: the types of the values and the errors.
use tlspuffin.Base.{
  ℕ, ◌+◌, ◌≡◌, refl, sym, ap, ◌∙◌, subst, true, ◌&&◌, List, [], ◌∷◌, ◌++◌, some, length, get_elem?,
  ◌==◌, ==_iff, arith, All, Bool-cases, Option-cases, inl, inr, Result, ok, err, bind, map_err,
  reverse, find, append_assoc, All-reverse,
}
use tlspuffin.Agent.{AgentName}
use tlspuffin.Algebra.Shape.{
  TypeShape, type_eq, FnError, unknown, crypto, missing_argument, mismatched_argument, other,
  DynamicFunction, downcast_args, make_dynamic,
}
use tlspuffin.Algebra.Term.{
  Term, Terms, Function, Variable, variable, application, nil, cons, get_type_shape,
}
use tlspuffin.Algebra.Typing.{WellTyped, Fits}
use tlspuffin.Trace.Context.{Matcher, Claim, Environment, find_variable, find_last_claim}
use tlspuffin.Trace.Evaluation.{Error, fn_error, evaluate_variable, evaluate, evaluate_args}
use tlspuffin.Trace.Lookup.{find_variable-type}

-- The two errors of a call with the wrong arguments.
abbrev pub IsArgumentError : FnError → Type 0
IsArgumentError (unknown (missing_argument index name)) = Unit
IsArgumentError (unknown (mismatched_argument index name)) = Unit
IsArgumentError (unknown (other text)) = ⊥
IsArgumentError (crypto text) = ⊥

abbrev pub IsTypeError : Error → Type 0
IsTypeError (fn_error e) = IsArgumentError e
IsTypeError _ = ⊥

-- A run that gives a value of the type, or an error that is not about arguments.
abbrev pub Yields : {V : Type 0} → (V → ℕ) → ℕ → Result Error V → Type 0
Yields type_id id (ok v) = type_id v ≡ id
Yields type_id id (err e) = ¬ IsTypeError e

abbrev YieldsFn : {V : Type 0} → (V → ℕ) → ℕ → Result FnError V → Type 0
YieldsFn type_id id (ok v) = type_id v ≡ id
YieldsFn type_id id (err e) = ¬ IsArgumentError e

-- The values are as many as the types and have them.
abbrev pub Match : {V : Type 0} → (V → ℕ) → List V → List TypeShape → Type 0
Match type_id [] [] = Unit
Match type_id [] (t ∷ ts) = ⊥
Match type_id (v ∷ vs) [] = ⊥
Match type_id (v ∷ vs) (t ∷ ts) = (type_id v ≡ t.inner_type_id) × Match type_id vs ts

abbrev YieldsArgs : {V : Type 0} → (V → ℕ) → List TypeShape → Result Error (List V) → Type 0
YieldsArgs type_id types (ok vs) = Match type_id vs types
YieldsArgs type_id types (err e) = ¬ IsTypeError e

-- The function was made by `make_dynamic` from a function with its return type, whose own errors are
-- not the argument errors of the wrapper.
pub record IsLinked {V : Type 0} (type_id : V → ℕ) (f : Function V) : Type 0 where
  pub concrete : DynamicFunction V
  pub made : f.dynamic_fn ≡ make_dynamic type_id f.shape concrete
  pub returns : (args : List V) → YieldsFn type_id f.shape.return_type.inner_type_id (concrete args)

module _ {V M : Type 0} (type_id : V → ℕ) where
  unfoldable mutual
    pub AllLinked : Term V M → Type 0
    AllLinked (variable v) = Unit
    AllLinked (application f ts) = IsLinked type_id f × AreLinked ts

    pub AreLinked : Terms V M → Type 0
    AreLinked nil = Unit
    AreLinked (cons t ts) = AllLinked t × AreLinked ts

-- Each claim holds a value of the type that it is filed under.
abbrev pub ClaimsTyped : {V : Type 0} → (V → ℕ) → List (Claim V) → Type 0
ClaimsTyped {V} type_id claims = All (λ (c : Claim V). type_id c.inner ≡ c.id.inner_type_id) claims

module _ {V : Type 0} (type_id : V → ℕ) where
  drop_one : (xs ys : List V) (v : V) → xs ++ v ∷ ys ≡ (xs ++ v ∷ []) ++ ys
  drop_one xs ys v = sym (append_assoc xs (v ∷ []) ys)

  at_length : (xs ys : List V) (v : V) → get_elem? (xs ++ v ∷ ys) (length xs) ≡ some v
  at_length [] ys v = refl
  at_length (x ∷ xs) ys v = at_length xs ys v

  length_snoc : (xs : List V) (v : V) → length (xs ++ v ∷ []) ≡ length xs + 1
  length_snoc [] v = omega arith
  length_snoc (x ∷ xs) v = omega (arith, length_snoc xs v)

  -- Arguments of the right types are passed on one for one.
  downcast_args-Match :
      (name : _) (types : List TypeShape) (done vs : List V)
      → Match type_id vs types
      → downcast_args type_id name (length done) types (done ++ vs) ≡ ok vs
  unfolding downcast_args
  downcast_args-Match name [] done [] h = refl
  downcast_args-Match name [] done (v ∷ vs) h = absurd h
  downcast_args-Match name (t ∷ ts) done [] h = absurd h
  downcast_args-Match name (t ∷ ts) done (v ∷ vs) h =
      let rest : downcast_args type_id name (length done + 1) ts (done ++ v ∷ vs) ≡ ok vs =
        subst (λ n. downcast_args type_id name n ts (done ++ v ∷ vs) ≡ ok vs) (length_snoc done v)
          (subst (λ l. downcast_args type_id name (length (done ++ v ∷ [])) ts l ≡ ok vs)
            (sym (drop_one done vs v)) (downcast_args-Match name ts (done ++ v ∷ []) vs h.1)) in
      let same : (type_id v == t.inner_type_id) ≡ true = (==_iff _ _).1 h.0 in
      rw (at_length done vs v, downcast_args) (rw (same, rest))

  claim-type :
      (claims : List (Claim V)) (name : AgentName) (shape : TypeShape) (c : Claim V)
      → ClaimsTyped type_id claims
      → find (λ x. type_eq x.id shape && x.agent_name == name) claims ≡ some c
      → type_id c.inner ≡ shape.inner_type_id
  unfolding type_eq
  claim-type [] name shape c h e = cc
  claim-type (x ∷ xs) name shape c h e =
      elim (Bool-cases (type_eq x.id shape && x.agent_name == name)) [
        | inl found ↦
            let same : x ≡ c = cc (rw found at e) in
            let typed : x.id.inner_type_id ≡ shape.inner_type_id = ground arith in
            ap (λ (y : Claim V). type_id y.inner) (sym same) ∙ h.0 ∙ typed
        | inr other_one ↦ claim-type xs name shape c h.1 (rw other_one at e)
      ]

module _ {V M : Type 0} (type_id : V → ℕ) (m : Matcher M) (env : Environment V M)
    (claims_typed : ClaimsTyped type_id env.claims) where
  variable-Yields :
      (v : Variable M) → Yields type_id v.typ.inner_type_id (evaluate_variable type_id m env v)
  unfolding evaluate_variable
  variable-Yields v = elim (Option-cases (find_variable type_id m env.knowledge v.typ v.query)) [
    | inr (value, e) ↦
        rw (e, evaluate_variable) (find_variable-type type_id m env.knowledge v.typ v.query value e)
    | inl e ↦
        rw (e, evaluate_variable)
          (elim (Option-cases (find_last_claim env.claims v.query.agent_name v.typ)) [
            | inl e' ↦ rw (e', evaluate_variable) (λ h. h)
            | inr (c, e') ↦
                rw (e', evaluate_variable)
                  (claim-type type_id (reverse env.claims) v.query.agent_name v.typ c
                    (All-reverse (λ (x : Claim V). type_id x.inner ≡ x.id.inner_type_id) env.claims
                      claims_typed)
                    (unfold find_last_claim in e'))
          ])
  ]

  linked-Yields :
      (f : Function V) (vs : List V)
      → IsLinked type_id f
      → Match type_id vs f.shape.argument_types
      → Yields type_id f.shape.return_type.inner_type_id (map_err fn_error (f.dynamic_fn vs))
  linked-Yields f vs link h =
      subst (λ d. Yields type_id f.shape.return_type.inner_type_id (map_err fn_error (d vs)))
        (sym link.made)
        (subst
          (λ (r : Result FnError V).
            Yields type_id f.shape.return_type.inner_type_id (map_err fn_error r))
          (sym call) (lifted (link.concrete vs) (link.returns vs)))
    where
      call : make_dynamic type_id f.shape link.concrete vs ≡ link.concrete vs
      call =
          unfold make_dynamic in
          ap (λ (r : Result FnError (List V)). bind r link.concrete)
            (downcast_args-Match type_id f.shape.name f.shape.argument_types [] vs h)

      lifted :
          (r : Result FnError V)
          → YieldsFn type_id f.shape.return_type.inner_type_id r
          → Yields type_id f.shape.return_type.inner_type_id (map_err fn_error r)
      lifted (ok v) k = k
      lifted (err e) k = k

  apply-Yields :
      (f : Function V) (r : Result Error (List V))
      → IsLinked type_id f
      → YieldsArgs type_id f.shape.argument_types r
      → Yields type_id f.shape.return_type.inner_type_id
          (bind r (λ vs. map_err fn_error (f.dynamic_fn vs)))
  apply-Yields f (ok vs) link h = linked-Yields f vs link h
  apply-Yields f (err e) link h = h

  cons-YieldsArgs :
      (t : TypeShape) (ts : List TypeShape) (r : Result Error V) (rs : Result Error (List V))
      → Yields type_id t.inner_type_id r
      → YieldsArgs type_id ts rs
      → YieldsArgs type_id (t ∷ ts) (bind r (λ v. bind rs (λ vs. ok (v ∷ vs))))
  cons-YieldsArgs t ts (ok v) (ok vs) h k = (h, k)
  cons-YieldsArgs t ts (ok v) (err e) h k = k
  cons-YieldsArgs t ts (err e) rs h k = h

  mutual
    unfolding evaluate WellTyped AllLinked

    evaluate-Yields :
        (t : Term V M)
        → WellTyped t
        → AllLinked type_id t
        → Yields type_id (get_type_shape t).inner_type_id (evaluate type_id m env t)
    evaluate-Yields (variable v) h link = variable-Yields v
    evaluate-Yields (application f ts) h link =
        apply-Yields f (evaluate_args type_id m env ts) link.0
          (evaluate_args-YieldsArgs f.shape.argument_types ts h link.1)

    evaluate_args-YieldsArgs :
        (types : List TypeShape) (ts : Terms V M)
        → Fits ts types
        → AreLinked type_id ts
        → YieldsArgs type_id types (evaluate_args type_id m env ts)
    evaluate_args-YieldsArgs [] nil h link = tt
    evaluate_args-YieldsArgs [] (cons t ts) h link = absurd h
    evaluate_args-YieldsArgs (b ∷ bs) nil h link = absurd h
    evaluate_args-YieldsArgs (b ∷ bs) (cons t ts) h link =
        cons-YieldsArgs b bs (evaluate type_id m env t) (evaluate_args type_id m env ts)
          (subst (λ n. Yields type_id n (evaluate type_id m env t)) h.0
            (evaluate-Yields t h.1 link.0))
          (evaluate_args-YieldsArgs bs ts h.2 link.1)

  -- If the claims hold values of the types that they are filed under, a well-typed term over
  -- functions made by `make_dynamic` evaluates to a value of its type or to an error, which is
  -- never a missing or mismatched argument.
  pub evaluate_sound :
      (t : Term V M)
      → WellTyped t
      → AllLinked type_id t
      → Yields type_id (get_type_shape t).inner_type_id (evaluate type_id m env t)
  evaluate_sound t h link = evaluate-Yields t h link
