-- ===== src/Execution/Monad.antt =====
-- Methods of the trace context, `fn f(&mut self) -> Result<A, Error>`: what a method wrote before it
-- failed stays written, so that the state comes back beside the error too.
use tlspuffin.Base.{◌≡◌, refl, Result, ok, err}
use tlspuffin.Trace.Evaluation.{Error}

-- How a method stops early: with an error of the code, or in the model out of the fuel of a loop.
pub data Stop : Type 0 where
  raised : Error → Stop
  out_of_fuel : Stop

abbrev pub Exec : Type 0 → Type 0 → Type 0
Exec S A = S → Result Stop A × S

unfoldable pub modify : {S : Type 0} → (S → S) → Exec S (Unit {0})
modify f s = (ok tt, f s)

module _ {S A : Type 0} where
  unfoldable pub pure : A → Exec S A
  pure a s = (ok a, s)

  unfoldable pub stop : Stop → Exec S A
  stop e s = (err e, s)

  -- A result that is computed from the state alone.
  unfoldable pub from_result : Result Error A → Exec S A
  from_result (ok a) s = (ok a, s)
  from_result (err e) s = (err (raised e), s)

  unfoldable pub gets : (S → A) → Exec S A
  gets f s = (ok (f s), s)

module _ {S A B : Type 0} where
  unfoldable pub continue : Result Stop A → (A → Exec S B) → Exec S B
  continue (ok a) f s = f a s
  continue (err e) f s = (err e, s)

  infixl 5 ◌>>=◌ ◌>>◌
  unfoldable pub ◌>>=◌ : Exec S A → (A → Exec S B) → Exec S B
  unfolding pure stop from_result gets modify continue
  ◌>>=◌ m f s = let (r, s') = m s in continue r f s'

  abbrev pub ◌>>◌ : Exec S A → Exec S B → Exec S B
  m >> n = m >>= λ _. n

  -- A method that returned did each of its parts.
  pub >>=-eq-ok :
      (m : Exec S A) (f : A → Exec S B) (s : S) {b : B} {t : S}
      → (m >>= f) s ≡ (ok b, t)
      → (a : A) × (u : S) × (m s ≡ (ok a, u)) × (f a u ≡ (ok b, t))
  unfolding ◌>>=◌
  >>=-eq-ok m f s h = split (m s) refl h
    where
      split :
          (p : Result Stop A × S) {b : B} {t : S}
          → m s ≡ p
          → continue p.0 f p.1 ≡ (ok b, t)
          → (a : A) × (u : S) × (m s ≡ (ok a, u)) × (f a u ≡ (ok b, t))
      split (ok a, u) e h = (a, u, e, h)
      split (err e', u) e h = cc

  -- A bind after a part that is known to return, or to stop.
  pub bind-ok :
      (m : Exec S A) (f : A → Exec S B) (s : S) {a : A} {t : S}
      → m s ≡ (ok a, t)
      → (m >>= f) s ≡ f a t
  unfolding ◌>>=◌
  bind-ok m f s e = rw (e, ◌>>=◌) refl

  pub bind-err :
      (m : Exec S A) (f : A → Exec S B) (s : S) {e : Stop} {t : S}
      → m s ≡ (err e, t)
      → (m >>= f) s ≡ (err e, t)
  unfolding ◌>>=◌
  bind-err m f s e = rw (e, ◌>>=◌) refl
