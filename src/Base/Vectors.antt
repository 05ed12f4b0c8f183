-- ===== src/Base/Vectors.antt =====
-- Laws of `Vec::swap_remove`, `Vec::remove` and `Vec::insert`.
use Prim.Native.Nat.{ℕ, zero, suc, ◌+◌, ◌-◌, ◌≤◌, ◌<◌}
use mathlib.Core.Path.{◌≡◌, refl, ap, sym, ◌∙◌}
use mathlib.Core.Bool.{true}
use mathlib.Core.List.{List, [], ◌∷◌, ◌++◌}
use mathlib.Core.Option.{some}
use native.Mathlib.Omega.{arith}
use tlspuffin.Base.Tests.{ltb}
use tlspuffin.Base.Lists.{
  length, get_elem?, take, drop, set, swap_remove, remove, insert, length-append, length-take_le,
  length-drop, All, All-append,
}

module _ {ℓ} {A : Type ℓ} where
  pub length-set : (xs : List A) (i : ℕ) (v : A) → length (set xs i v) ≡ length xs
  length-set [] i v = refl
  length-set (x ∷ xs) zero v = refl
  length-set (x ∷ xs) (suc i) v = ap suc (length-set xs i v)

  set-snoc :
      (xs : List A) (i : ℕ) (v w : A)
      → i < length xs
      → set (xs ++ w ∷ []) i v ≡ set xs i v ++ w ∷ []
  set-snoc [] i v w h = absurd (omega arith)
  set-snoc (x ∷ xs) zero v w h = refl
  set-snoc (x ∷ xs) (suc i) v w h = ap (◌∷◌ x) (set-snoc xs i v w (omega arith))

  get_elem?-snoc : (xs : List A) (w : A) → get_elem? (xs ++ w ∷ []) (length xs) ≡ some w
  get_elem?-snoc [] w = refl
  get_elem?-snoc (x ∷ xs) w = get_elem?-snoc xs w

  take-snoc : (xs : List A) (w : A) → take (length xs) (xs ++ w ∷ []) ≡ xs
  take-snoc [] w = refl
  take-snoc (x ∷ xs) w = ap (◌∷◌ x) (take-snoc xs w)

  -- Pushing an item and swap-removing an earlier index puts the item at that index.
  pub swap_remove-push :
      (xs : List A) (i : ℕ) (v : A)
      → i < length xs
      → swap_remove (xs ++ v ∷ []) i ≡ some (set xs i v)
  swap_remove-push xs i v h =
      let len : length (xs ++ v ∷ []) - 1 ≡ length xs = omega (arith, length-append xs (v ∷ [])) in
      let inside : ltb i (length (xs ++ v ∷ [])) ≡ true =
        ground (arith, length-append xs (v ∷ [])) in
      let taken : take (length xs) (set xs i v ++ v ∷ []) ≡ set xs i v =
        ap (λ n. take n (set xs i v ++ v ∷ [])) (sym (length-set xs i v))
        ∙ take-snoc (set xs i v) v in
      rw (len, get_elem?-snoc xs v, inside, set-snoc xs i v v h) (ap some taken)

  pub All-set {κ} :
      (P : A → Type κ) (xs : List A) (i : ℕ) (v : A) → All P xs → P v → All P (set xs i v)
  All-set P [] i v h k = tt
  All-set P (x ∷ xs) zero v h k = (k, h.1)
  All-set P (x ∷ xs) (suc i) v h k = (h.0, All-set P xs i v h.1 k)

  All-take {κ} : (P : A → Type κ) (n : ℕ) (xs : List A) → All P xs → All P (take n xs)
  All-take P zero xs h = tt
  All-take P (suc n) [] h = tt
  All-take P (suc n) (x ∷ xs) h = (h.0, All-take P n xs h.1)

  All-drop {κ} : (P : A → Type κ) (n : ℕ) (xs : List A) → All P xs → All P (drop n xs)
  All-drop P zero xs h = h
  All-drop P (suc n) [] h = tt
  All-drop P (suc n) (x ∷ xs) h = All-drop P n xs h.1

  -- Removing at a valid index gives a vector that is shorter by one.
  pub remove_lem :
      (P : A → Type 0) (xs : List A) (i : ℕ)
      → i < length xs
      → All P xs
      → (ys : List A) × (remove xs i ≡ some ys)
        × (ys ≡ take i xs ++ drop (suc i) xs)
        × (length ys + 1 ≡ length xs)
        × All P ys
  remove_lem P xs i h all = (
    take i xs ++ drop (suc i) xs,
    ground arith,
    refl,
    omega (
      arith,
      length-append (take i xs) (drop (suc i) xs),
      length-take_le i xs,
      length-drop (suc i) xs,
    ),
    All-append P (take i xs) (drop (suc i) xs) (All-take P i xs all) (All-drop P (suc i) xs all),
  )

  -- Inserting at an index up to the length gives a vector that is longer by one.
  pub insert_lem :
      (P : A → Type 0) (xs : List A) (i : ℕ) (v : A)
      → i ≤ length xs
      → All P xs
      → P v
      → (ys : List A) × (insert xs i v ≡ some ys)
        × (ys ≡ take i xs ++ v ∷ drop i xs)
        × (length ys ≡ length xs + 1)
        × All P ys
  insert_lem P xs i v h all pv = (
    take i xs ++ v ∷ drop i xs,
    ground arith,
    refl,
    omega (arith, length-append (take i xs) (v ∷ drop i xs), length-take_le i xs, length-drop i xs),
    All-append P (take i xs) (v ∷ drop i xs) (All-take P i xs all) (pv, All-drop P i xs all),
  )
