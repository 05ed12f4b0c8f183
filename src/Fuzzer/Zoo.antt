-- ===== src/Fuzzer/Zoo.antt =====
-- puffin/src/fuzzer/term_zoo.rs: a closed term for each function symbol of the signature.
use tlspuffin.Base.{ℕ, zero, suc, List, [], ◌∷◌, Option, none, some}
use tlspuffin.Algebra.Shape.{TypeShape}
use tlspuffin.Algebra.Term.{Term, Terms, application, cons, nil}
use tlspuffin.Algebra.Signature.{Signature, FunctionDefinition, get_typ}
use tlspuffin.Fuzzer.Rand.{Rand}
use tlspuffin.Fuzzer.Choose.{choose_item}

-- How deep generated terms are, and how often a generation is tried.
abbrev pub max_depth : ℕ
max_depth = 8

abbrev pub max_tries : ℕ
max_tries = 100

module _ {V M R : Type 0} (rng : Rand R) (signature : Signature V) where
  -- The subterms for the required types. `generate` makes a term for a possibility, at a depth that
  -- is lower by one.
  unfoldable pub generate_subterms :
      (FunctionDefinition V → R → Option (Term V M) × R)
      → List TypeShape
      → R
      → Option (Terms V M) × R
  generate_subterms generate [] rand = (some nil, rand)
  generate_subterms generate (typ ∷ types) rand = elim (get_typ typ signature.functions_by_typ) [
    | none ↦ (none, rand)
    | some possibilities ↦
        let (chosen, rand1) = choose_item rng possibilities rand in
        elim chosen [
          | none ↦ (none, rand1)
          | some possibility ↦
              let (made, rand2) = generate possibility rand1 in
              elim made [
                | none ↦ (none, rand2)
                | some subterm ↦
                    let (rest, rand3) = generate_subterms generate types rand2 in
                    elim rest [
                      | none ↦ (none, rand3)
                      | some subterms ↦ (some (cons subterm subterms), rand3)
                    ]
              ]
        ]
  ]

  unfoldable pub generate_term : ℕ → FunctionDefinition V → R → Option (Term V M) × R
  unfolding generate_subterms
  generate_term zero d rand = (none, rand)
  generate_term (suc depth) d rand =
      let (made, rand') = generate_subterms (generate_term depth) d.shape.argument_types rand in
      elim made [ none ↦ (none, rand') | some subterms ↦ (some (application d subterms), rand') ]

  -- At most `counter` tries for one function symbol.
  unfoldable pub try_generate : ℕ → FunctionDefinition V → R → Option (Term V M) × R
  unfolding generate_term
  try_generate zero d rand = (none, rand)
  try_generate (suc counter) d rand =
      let (made, rand') = generate_term max_depth d rand in
      elim made [ none ↦ try_generate counter d rand' | some term ↦ (some term, rand') ]

  unfoldable pub generate_all : List (FunctionDefinition V) → R → List (Term V M) × R
  unfolding try_generate
  generate_all [] rand = ([], rand)
  generate_all (d ∷ ds) rand =
      let (made, rand1) = try_generate max_tries d rand in
      let (terms, rand2) = generate_all ds rand1 in
      (elim made [ none ↦ terms | some term ↦ term ∷ terms ], rand2)

  -- The zoo is its list of terms.
  unfoldable pub generate_zoo : R → List (Term V M) × R
  unfolding generate_all
  generate_zoo rand = generate_all signature.functions rand
