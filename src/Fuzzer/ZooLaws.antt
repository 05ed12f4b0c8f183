-- ===== src/Fuzzer/ZooLaws.antt =====
-- puffin/src/fuzzer/term_zoo.rs: the types, the variables and the depth of the terms of the zoo.
use tlspuffin.Base.{ℕ, zero, suc, ◌≡◌, refl, ◌∙◌, List, [], ◌∷◌, Option, none, some, arith, All}
use tlspuffin.Algebra.Shape.{TypeShape}
use tlspuffin.Algebra.Term.{Term, Terms, application}
use tlspuffin.Algebra.Typing.{WellTyped, SameType}
use tlspuffin.Algebra.Signature.{Signature, FunctionDefinition, get_typ}
use tlspuffin.Fuzzer.Rand.{Rand}
use tlspuffin.Fuzzer.Choose.{choose_item}
use tlspuffin.Fuzzer.Places.{choose_item-All}
use tlspuffin.Fuzzer.Zoo.{
  max_depth, generate_subterms, generate_term, try_generate, generate_all, generate_zoo, max_tries,
}
use tlspuffin.Fuzzer.ZooTerms.{
  depth, IsClosed, IsMade, AreMade, AreMade-cons, IsZooTerm, HoldsSome, HoldsSome-step,
  HoldsSome-eq, AllReturn, IsGrouped, get_typ-AllReturn,
}

module _ (M : Type 0) {V R : Type 0} (rng : Rand R) (signature : Signature V)
    (grouped : IsGrouped signature.functions_by_typ) where
  -- The postcondition of a generator of terms.
  abbrev Makes : ℕ → (FunctionDefinition V → R → Option (Term V M) × R) → Type 0
  Makes n generate =
      (d : FunctionDefinition V) (rand : R) (t : Term V M)
      → (generate d rand).0 ≡ some t
      → IsMade n d.shape.return_type t

  generate_subterms-AreMade :
      (n : ℕ) (generate : FunctionDefinition V → R → Option (Term V M) × R) (types : List TypeShape)
      (rand : R)
      → Makes n generate
      → HoldsSome (AreMade n types) (generate_subterms rng signature generate types rand).0
  unfolding generate_subterms
  generate_subterms-AreMade n generate [] rand makes =
      unfold WellTyped depth IsClosed in record { fits = tt; closed = tt; shallow = omega arith }
  generate_subterms-AreMade n generate (typ ∷ types) rand makes =
      HoldsSome-step (AreMade n (typ ∷ types)) (get_typ typ signature.functions_by_typ) rand _
        λ ds found.
          HoldsSome-step (AreMade n (typ ∷ types)) (choose_item rng ds rand).0 _ _ λ d chosen.
            HoldsSome-step (AreMade n (typ ∷ types)) (generate d (choose_item rng ds rand).1).0 _ _
              λ t made.
                HoldsSome-step (AreMade n (typ ∷ types))
                  (generate_subterms rng signature generate types
                    (generate d (choose_item rng ds rand).1).1).0
                  _ _
                  λ ts rest. AreMade-cons n typ types t ts (child ds d t found chosen made) (
                    HoldsSome-eq (AreMade n types) _ ts rest (
                      generate_subterms-AreMade n generate types
                        (generate d (choose_item rng ds rand).1).1 makes))
    where
      child :
          (ds : List (FunctionDefinition V)) (d : FunctionDefinition V) (t : Term V M)
          → get_typ typ signature.functions_by_typ ≡ some ds
          → (choose_item rng ds rand).0 ≡ some d
          → (generate d (choose_item rng ds rand).1).0 ≡ some t
          → IsMade n typ t
      child ds d t found chosen made =
          let returns =
            HoldsSome-eq (AllReturn typ) (get_typ typ signature.functions_by_typ) ds found
              (get_typ-AllReturn typ signature.functions_by_typ grouped) in
          let same =
            choose_item-All rng (λ x. SameType x.shape.return_type typ) ds rand d returns chosen in
          let m = makes d (choose_item rng ds rand).1 t made in
          record {
            has_type = (m.has_type.0, m.has_type.1 ∙ same);
            closed = m.closed;
            shallow = m.shallow;
          }

  application-IsMade :
      (n : ℕ) (d : FunctionDefinition V) (ts : Terms V M)
      → AreMade n d.shape.argument_types ts
      → IsMade (suc n) d.shape.return_type (application d ts)
  unfolding WellTyped depth IsClosed
  application-IsMade n d ts h = record {
    has_type = (h.fits, refl);
    closed = h.closed;
    shallow = omega (arith, h.shallow);
  }

  generate_term-IsMade :
      (n : ℕ) (d : FunctionDefinition V) (rand : R)
      → HoldsSome (IsMade {M = M} n d.shape.return_type) (generate_term rng signature n d rand).0
  unfolding generate_term
  generate_term-IsMade zero d rand = tt
  generate_term-IsMade (suc n) d rand =
      HoldsSome-step (IsMade (suc n) d.shape.return_type)
        (generate_subterms rng signature (generate_term rng signature n) d.shape.argument_types
          rand).0
        _ _
        λ ts made. application-IsMade n d ts (
          HoldsSome-eq (AreMade n d.shape.argument_types) _ ts made (
            generate_subterms-AreMade n (generate_term rng signature n) d.shape.argument_types rand
              (λ d' rand' t e.
                HoldsSome-eq (IsMade n d'.shape.return_type) _ t e
                  (generate_term-IsMade n d' rand'))))

  try_generate-IsMade :
      (counter : ℕ) (d : FunctionDefinition V) (rand : R)
      → HoldsSome
          (IsMade {M = M} max_depth d.shape.return_type)
          (try_generate rng signature counter d rand).0
  unfolding try_generate
  try_generate-IsMade zero d rand = tt
  try_generate-IsMade (suc counter) d rand =
      split (try_generate rng signature counter d) (try_generate-IsMade counter d)
        (generate_term rng signature max_depth d rand) (generate_term-IsMade max_depth d rand)
    where
      split :
          (retry : R → Option (Term V M) × R)
          → ((r : R) → HoldsSome (IsMade max_depth d.shape.return_type) (retry r).0)
          → (o : Option (Term V M) × R)
          → HoldsSome (IsMade {M = M} max_depth d.shape.return_type) o.0
          → HoldsSome (IsMade {M = M} max_depth d.shape.return_type) (
              let res : Option (Term V M) × R = elim o.0 [
                | none ↦ retry o.1
                | some term ↦ (some term, o.1)
              ] in
              res.0)
      split retry again (none, r) h = again r
      split retry again (some t, r) h = h

  generate_all-IsZooTerm :
      (ds : List (FunctionDefinition V)) (rand : R)
      → All (IsZooTerm {M = M}) (generate_all rng signature ds rand).0
  unfolding generate_all
  generate_all-IsZooTerm [] rand = tt
  generate_all-IsZooTerm (d ∷ ds) rand =
      let made = try_generate rng signature max_tries d rand in
      join made.0 (generate_all rng signature ds made.1).0 (try_generate-IsMade max_tries d rand)
        (generate_all-IsZooTerm ds made.1)
    where
      join :
          (o : Option (Term V M)) (ts : List (Term V M))
          → HoldsSome (IsMade {M = M} max_depth d.shape.return_type) o
          → All IsZooTerm ts
          → All IsZooTerm (elim o [ none ↦ ts | some term ↦ term ∷ ts ])
      join none ts h k = k
      join (some t) ts h k = ((h.has_type.0, h.closed, h.shallow), k)

  -- Over a signature grouped by return type, every term of a generated zoo is well-typed, has no
  -- variables and is at most `max_depth` deep.
  pub generate_zoo-IsZooTerm :
      (rand : R) → All (IsZooTerm {M = M}) (generate_zoo rng signature rand).0
  unfolding generate_zoo
  generate_zoo-IsZooTerm rand = generate_all-IsZooTerm signature.functions rand
