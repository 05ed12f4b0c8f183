-- ===== src/Execution/Settling.antt =====
-- Loops on fuel in the methods of the trace context: with enough fuel a method ends, and more fuel changes
-- nothing.
use tlspuffin.Base.{
  ℕ, ◌≤◌, ◌≡◌, ◌≢◌, refl, sym, ◌∙◌, ap, max, Bool, true, false, Result, ok, err, if◌then◌else◌,
  arith,
}
use tlspuffin.Trace.Evaluation.{Error}
use tlspuffin.Execution.Monad.{
  Stop, out_of_fuel, Exec, pure, from_result, gets, continue, ◌>>=◌, bind-ok, bind-err,
}

module _ {S A : Type 0} where
  -- A method without such a loop.
  pub record Runs (m : Exec S A) : Type 0 where
    pub at : (s : S) → (m s).0 ≢ err out_of_fuel

  -- Enough fuel for a method from one state.
  pub record Settles (f : ℕ → Exec S A) (s : S) : Type 0 where
    pub enough : ℕ
    pub ends : (f enough s).0 ≢ err out_of_fuel
    pub stays : (n : ℕ) → enough ≤ n → f n s ≡ f enough s

  pub record Terminates (f : ℕ → Exec S A) : Type 0 where
    pub at : (s : S) → Settles f s

  pub Terminates-Runs : (m : Exec S A) → Runs m → Terminates λ n. m
  Terminates-Runs m h = record {
    at = λ s. record { enough = 0; ends = h.at s; stays = λ n le. refl };
  }

  pub Runs-pure : (a : A) → Runs (pure a)
  unfolding pure
  Runs-pure a = record { at = λ s e. cc }

  pub Runs-from_result : (r : Result Error A) → Runs (from_result {S = S} r)
  unfolding from_result
  Runs-from_result (ok a) = record { at = λ s e. cc }
  Runs-from_result (err e) = record { at = λ s k. cc }

  pub Runs-gets : (f : S → A) → Runs (gets f)
  unfolding gets
  Runs-gets f = record { at = λ s e. cc }

module _ {S A B : Type 0} where
  Runs-continue :
      (r : Result Stop A) (f : A → Exec S B) (s : S)
      → r ≢ err out_of_fuel
      → ((a : A) → Runs (f a))
      → (continue r f s).0 ≢ err out_of_fuel
  unfolding continue
  Runs-continue (ok a) f s h k = (k a).at s
  Runs-continue (err e) f s h k = λ stuck. h (cc)

  pub Runs-bind :
      (m : Exec S A) (f : A → Exec S B) → Runs m → ((a : A) → Runs (f a)) → Runs (m >>= f)
  unfolding ◌>>=◌
  Runs-bind m f h k = record { at = λ s. let (r, s') = m s in Runs-continue r f s' (h.at s) k }

  Settles-bind :
      (f : ℕ → Exec S A) (g : ℕ → A → Exec S B) (s : S)
      → Settles f s
      → ((a : A) → Terminates λ n. g n a)
      → Settles (λ n. f n >>= g n) s
  Settles-bind f g s h k = split (f h.enough s) refl
    where
      split : (out : Result Stop A × S) → f h.enough s ≡ out → Settles (λ n. f n >>= g n) s
      split (ok a, t) e =
          let later = (k a).at t in
          let run : (n : ℕ) → h.enough ≤ n → (f n >>= g n) s ≡ g n a t =
            λ n le. bind-ok (f n) (g n) s (h.stays n le ∙ e) in
          let most = max h.enough later.enough in
          let first = run most (omega arith) ∙ later.stays most (omega arith) in
          record {
            enough = most;
            ends = λ stuck. later.ends (sym (ap (λ out. out.0) first) ∙ stuck);
            stays =
                λ n le. run n (omega (arith, le)) ∙ later.stays n (omega (arith, le)) ∙ sym first;
          }
      split (err stop, t) e =
          let run : (n : ℕ) → h.enough ≤ n → (f n >>= g n) s ≡ (err stop, t) =
            λ n le. bind-err (f n) (g n) s (h.stays n le ∙ e) in
          let first = run h.enough (omega arith) in
          record {
            enough = h.enough;
            ends = λ stuck.
                let same : ◌≡◌ {A = Result Stop B} (err stop) (err out_of_fuel) =
                  sym (ap (λ out. out.0) first) ∙ stuck in
                h.ends (ap (λ out. out.0) e ∙ cc);
            stays = λ n le. run n le ∙ sym first;
          }

  pub Terminates-bind :
      (f : ℕ → Exec S A) (g : ℕ → A → Exec S B)
      → Terminates f
      → ((a : A) → Terminates λ n. g n a)
      → Terminates λ n. f n >>= g n
  Terminates-bind f g h k = record { at = λ s. Settles-bind f g s (h.at s) k }

module _ {S A : Type 0} where
  pub Runs-if : (b : Bool) (m n : Exec S A) → Runs m → Runs n → Runs (if b then m else n)
  Runs-if true m n h k = h
  Runs-if false m n h k = k

pub ruleset runs_rules = (Runs-pure, Runs-from_result, Runs-gets, Runs-bind, Runs-if)
