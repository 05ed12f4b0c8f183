-- ===== src/Trace/Lookup.antt =====
-- puffin/src/trace.rs, `find_variable`: the order in which matching knowledge is taken.
use tlspuffin.Base.{
  ℕ, ◌≤◌, ◌≡◌, sym, ap, ◌∙◌, subst, true, List, [], ◌∷◌, some, get_elem?, keep, leb, leb→le, arith,
  All, All-get_elem?, Bool-cases, Option-cases, inl, inr,
}
use mathlib.Core.List.{Perm}
use mathlib.Core.List.Perm
use tlspuffin.Algebra.Shape.{TypeShape}
use tlspuffin.Algebra.Term.{Query}
use tlspuffin.Trace.Context.{
  Matcher, Knowledge, option_specificity, insert_by, sort_by_key, is_possible, find_variable,
}

module _ {A : Type 0} (key : A → ℕ) where
  -- The keys do not fall along the list.
  abbrev pub IsSorted : List A → Type 0
  IsSorted [] = Unit
  IsSorted (x ∷ xs) = All (λ y. key x ≤ key y) xs × IsSorted xs

  pub insert_by-All :
      (P : A → Type 0) (x : A) (xs : List A) → P x → All P xs → All P (insert_by key x xs)
  unfolding insert_by
  insert_by-All P x [] px h = (px, tt)
  insert_by-All P x (y ∷ ys) px h = elim (Bool-cases (leb (key x) (key y))) [
    | inl e ↦ rw e (px, h)
    | inr e ↦ rw e (h.0, insert_by-All P x ys px h.1)
  ]

  pub sort_by_key-All : (P : A → Type 0) (xs : List A) → All P xs → All P (sort_by_key key xs)
  unfolding sort_by_key
  sort_by_key-All P [] h = tt
  sort_by_key-All P (x ∷ xs) h =
      insert_by-All P x (sort_by_key key xs) h.0 (sort_by_key-All P xs h.1)

  le-All :
      (x : A) (n : ℕ) (xs : List A)
      → n ≤ key x
      → All (λ y. key x ≤ key y) xs
      → All (λ y. n ≤ key y) xs
  le-All x n [] h k = tt
  le-All x n (y ∷ ys) h k = (omega (arith, k.0), le-All x n ys h k.1)

  insert_by-IsSorted : (x : A) (xs : List A) → IsSorted xs → IsSorted (insert_by key x xs)
  unfolding insert_by
  insert_by-IsSorted x [] h = (tt, tt)
  insert_by-IsSorted x (y ∷ ys) h = elim (Bool-cases (leb (key x) (key y))) [
    | inl e ↦
        let below = leb→le (key x) (key y) e in rw e ((below, le-All y (key x) ys below h.0), h)
    | inr e ↦
        rw e
          (insert_by-All (λ z. key y ≤ key z) x ys (ground arith) h.0, insert_by-IsSorted x ys h.1)
  ]

  pub sort_by_key-IsSorted : (xs : List A) → IsSorted (sort_by_key key xs)
  unfolding sort_by_key
  sort_by_key-IsSorted [] = tt
  sort_by_key-IsSorted (x ∷ xs) =
      insert_by-IsSorted x (sort_by_key key xs) (sort_by_key-IsSorted xs)

  insert_by-perm : (x : A) (xs : List A) → Perm (insert_by key x xs) (x ∷ xs)
  unfolding insert_by
  insert_by-perm x [] = Perm.refl (x ∷ [])
  insert_by-perm x (y ∷ ys) = elim (Bool-cases (leb (key x) (key y))) [
    | inl e ↦ rw e (Perm.refl (x ∷ y ∷ ys))
    | inr e ↦ rw e (Perm.trans (Perm.cons y (insert_by-perm x ys)) (Perm.swap x y ys))
  ]

  pub sort_by_key-perm : (xs : List A) → Perm (sort_by_key key xs) xs
  unfolding sort_by_key
  sort_by_key-perm [] = Perm.refl []
  sort_by_key-perm (x ∷ xs) =
      Perm.trans (insert_by-perm x (sort_by_key key xs)) (Perm.cons x (sort_by_key-perm xs))

  insert_by-All_back :
      (P : A → Type 0) (x : A) (xs : List A) → All P (insert_by key x xs) → P x × All P xs
  unfolding insert_by
  insert_by-All_back P x [] h = h
  insert_by-All_back P x (y ∷ ys) h = elim (Bool-cases (leb (key x) (key y))) [
    | inl e ↦ rw e at h
    | inr e ↦
        let h' : All P (y ∷ insert_by key x ys) = rw e at h in
        let (px, rest) = insert_by-All_back P x ys h'.1 in (px, (h'.0, rest))
  ]

  sort_by_key-All_back : (P : A → Type 0) (xs : List A) → All P (sort_by_key key xs) → All P xs
  unfolding sort_by_key
  sort_by_key-All_back P [] h = tt
  sort_by_key-All_back P (x ∷ xs) h =
      let (px, rest) = insert_by-All_back P x (sort_by_key key xs) h in
      (px, sort_by_key-All_back P xs rest)

  -- The first item in sorted order has the least key of all.
  pub sort_by_key-least :
      (xs : List A) (x : A)
      → get_elem? (sort_by_key key xs) 0 ≡ some x
      → All (λ y. key x ≤ key y) xs
  sort_by_key-least xs x e =
      sort_by_key-All_back (λ y. key x ≤ key y) xs
        (first (sort_by_key key xs) (sort_by_key-IsSorted xs) e)
    where
      first : (ys : List A) → IsSorted ys → get_elem? ys 0 ≡ some x → All (λ y. key x ≤ key y) ys
      first [] h e' = cc
      first (y ∷ ys) h e' = subst (λ z. All (λ w. key z ≤ key w) (y ∷ ys)) (cc) (omega arith, h.0)

module _ {V M : Type 0} (type_id : V → ℕ) (m : Matcher M) where
  possible-All :
      (typ : TypeShape) (q : Query M) (ks : List (Knowledge V M))
      → All (λ k. is_possible type_id m typ q k ≡ true) (keep (is_possible type_id m typ q) ks)
  possible-All typ q [] = tt
  possible-All typ q (k ∷ ks) = elim (Bool-cases (is_possible type_id m typ q k)) [
    | inl e ↦ rw e (e, possible-All typ q ks)
    | inr e ↦ rw e (possible-All typ q ks)
  ]

  -- A value that `find_variable` returns is that of the item at the query's counter of a
  -- permutation of the possible knowledge sorted by rising specificity; that item is possible: its
  -- type, agent and matcher are those that were asked for.
  pub find_variable-ordered :
      (ks : List (Knowledge V M)) (typ : TypeShape) (q : Query M) (v : V)
      → find_variable type_id m ks typ q ≡ some v
      → (order : List (Knowledge V M)) × (k : Knowledge V M) × Perm order
          (keep (is_possible type_id m typ q) ks)
        × IsSorted (λ x. option_specificity m x.matcher) order
        × (get_elem? order q.counter ≡ some k)
        × (is_possible type_id m typ q k ≡ true)
        × (k.data_value ≡ v)
  unfolding find_variable
  find_variable-ordered ks typ q v e =
      let key = λ (x : Knowledge V M). option_specificity m x.matcher in
      let matching = keep (is_possible type_id m typ q) ks in
      let order = sort_by_key key matching in
      elim (Option-cases (get_elem? order q.counter)) [
        | inl none_there ↦ absurd (cc (rw none_there at e))
        | inr (k, at) ↦ (
          order,
          k,
          sort_by_key-perm key matching,
          sort_by_key-IsSorted key matching,
          at,
          All-get_elem? (λ x. is_possible type_id m typ q x ≡ true) order q.counter
              (sort_by_key-All key (λ x. is_possible type_id m typ q x ≡ true) matching
                (possible-All typ q ks))
              at,
          cc (rw at at e),
        )
      ]

  -- With the counter 0, `find_variable` returns the value of possible knowledge of the least
  -- specificity.
  pub find_variable_least_specific :
      (ks : List (Knowledge V M)) (typ : TypeShape) (q : Query M) (v : V)
      → q.counter ≡ 0
      → find_variable type_id m ks typ q ≡ some v
      → (k : Knowledge V M) × (k.data_value ≡ v)
        × (is_possible type_id m typ q k ≡ true)
        × All
            (λ x. option_specificity m k.matcher ≤ option_specificity m x.matcher)
            (keep (is_possible type_id m typ q) ks)
  unfolding find_variable
  find_variable_least_specific ks typ q v zero_counter e =
      let key = λ (x : Knowledge V M). option_specificity m x.matcher in
      let matching = keep (is_possible type_id m typ q) ks in
      elim (Option-cases (get_elem? (sort_by_key key matching) q.counter)) [
        | inl none_there ↦ absurd (cc (rw none_there at e))
        | inr (k, at) ↦ (
          k,
          cc (rw at at e),
          All-get_elem? (λ x. is_possible type_id m typ q x ≡ true) (sort_by_key key matching)
              q.counter
              (sort_by_key-All key (λ x. is_possible type_id m typ q x ≡ true) matching
                (possible-All typ q ks))
              at,
          sort_by_key-least key matching k
              (subst (λ n. get_elem? (sort_by_key key matching) n ≡ some k) zero_counter at),
        )
      ]

  -- What is found has the type that was asked for.
  pub find_variable-type :
      (ks : List (Knowledge V M)) (typ : TypeShape) (q : Query M) (v : V)
      → find_variable type_id m ks typ q ≡ some v
      → type_id v ≡ typ.inner_type_id
  unfolding is_possible
  find_variable-type ks typ q v e =
      let (order, k, _, _, _, possible, same) = find_variable-ordered ks typ q v e in
      let typed : typ.inner_type_id ≡ type_id k.data_value = ground arith in
      ap type_id (sym same) ∙ sym typed
