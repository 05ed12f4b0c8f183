-- ===== src/Codec/Consumes.antt =====
-- What a successful read has taken: bytes in front of the reader, in a relation to the result.
use tlspuffin.Base.{
  ℕ, ◌+◌, ◌≤◌, ◌≡◌, refl, sym, ap, ◌∙◌, subst, List, [], ◌++◌, length, take, drop, Option, none,
  some, ltb, ◌==◌, arith, append_assoc, append-nil, length-append, take-append-drop, drop-add,
  length-take_le, length-drop, Bool-cases, inl, inr,
}
use tlspuffin.Codec.Reader.{Reader, Read, ◌>>=◌, pure, or_none, take_bytes, left}
use tlspuffin.Codec.Numbers.{read_number, decode, from_be_bytes}

-- The reader `r'` stands behind `xs`, which stood in front of `r`.
pub record Past (r : Reader) (xs : List ℕ) (r' : Reader) : Type 0 where
  pub buf_same : r'.buf ≡ r.buf
  pub offs_moved : r'.offs ≡ r.offs + length xs
  pub bytes_taken : drop r.offs r.buf ≡ xs ++ drop r'.offs r'.buf

pub record Consumes {A : Type 0} (m : Read A) (P : A → List ℕ → Type 0) : Type 0 where
  pub consumes :
      (r r' : Reader) (a : A) → m r ≡ (some a, r') → (xs : List ℕ) × P a xs × Past r xs r'

Past-Past :
    {r r1 r2 : Reader} {xs ys : List ℕ} → Past r xs r1 → Past r1 ys r2 → Past r (xs ++ ys) r2
Past-Past {r} {r1} {r2} {xs} {ys} p q = record {
  buf_same = q.buf_same ∙ p.buf_same;
  offs_moved = omega (arith, q.offs_moved, p.offs_moved, length-append xs ys);
  bytes_taken =
      p.bytes_taken
      ∙ ap (λ zs. xs ++ zs) q.bytes_taken
      ∙ sym (append_assoc xs ys (drop r2.offs r2.buf));
}

module _ {A B : Type 0} where
  abbrev go_on : (A → Read B) → Option A → Reader → Option B × Reader
  go_on f o r = elim o [ none ↦ (none, r) | some a ↦ f a r ]

  -- Two reads take what the first and then what the second takes.
  abbrev pub Both : (A → List ℕ → Type 0) → (A → B → List ℕ → Type 0) → B → List ℕ → Type 0
  Both P Q b zs = (a : A) × (xs : List ℕ) × (ys : List ℕ) × (zs ≡ xs ++ ys) × P a xs × Q a b ys

  pub Consumes->>= :
      {m : Read A} {f : A → Read B} {P : A → List ℕ → Type 0} {Q : A → B → List ℕ → Type 0}
      → Consumes m P
      → ((a : A) → Consumes (f a) (Q a))
      → Consumes (m >>= f) (Both P Q)
  unfolding ◌>>=◌
  Consumes->>= {m} {f} {P} {Q} h k = record {
    consumes = λ r r' b e. second r r' b (m r).0 (m r).1 refl e;
  }
    where
      second :
          (r r' : Reader) (b : B) (o : Option A) (r1 : Reader)
          → m r ≡ (o, r1)
          → go_on f o r1 ≡ (some b, r')
          → (zs : List ℕ) × Both P Q b zs × Past r zs r'
      second r r' b none r1 first e = absurd (cc)
      second r r' b (some a) r1 first e =
          let (xs, p, past) = h.consumes r r1 a first in
          let (ys, q, past') = (k a).consumes r1 r' b e in
          (xs ++ ys, (a, xs, ys, refl, p, q), Past-Past past past')

pub Consumes-weaken :
    {A : Type 0} {m : Read A} {P Q : A → List ℕ → Type 0}
    → ((a : A) (xs : List ℕ) → P a xs → Q a xs)
    → Consumes m P
    → Consumes m Q
Consumes-weaken f h = record {
  consumes = λ r r' a e. let (xs, p, past) = h.consumes r r' a e in (xs, f a xs p, past);
}

pub Consumes-or_none :
    {A : Type 0} (o : Option A) → Consumes (or_none o) (λ b xs. (o ≡ some b) × (xs ≡ []))
Consumes-or_none {A} o = record {
  consumes = λ r r' b e. (
    [],
    (ap (λ (p : Option A × Reader). p.0) e, refl),
    record {
      buf_same = ap (λ (p : Option A × Reader). p.1.buf) (sym e);
      offs_moved = ap (λ (p : Option A × Reader). p.1.offs) (sym e) ∙ omega arith;
      bytes_taken = ap (λ (p : Option A × Reader). drop p.1.offs p.1.buf) e;
    },
  );
}

pub Consumes-pure : {A : Type 0} (a : A) → Consumes (pure a) (λ b xs. (a ≡ b) × (xs ≡ []))
Consumes-pure a = record {
  consumes = λ r r' b e. (
    [],
    (cc, refl),
    record {
      buf_same = ap (λ (p : Option _ × Reader). p.1.buf) (sym e);
      offs_moved = ap (λ (p : Option _ × Reader). p.1.offs) (sym e) ∙ omega arith;
      bytes_taken = ap (λ (p : Option _ × Reader). drop p.1.offs p.1.buf) e;
    },
  );
}

take-Past :
    (n : ℕ) (r : Reader)
    → n ≤ left r
    → Past r (take n (drop r.offs r.buf)) (record { buf = r.buf; offs = r.offs + n })
unfolding left
take-Past n r enough =
    let bytes = drop r.offs r.buf in
    let sized = length-take_le n bytes (omega (arith, enough, length-drop r.offs r.buf)) in
    record {
      buf_same = refl;
      offs_moved = omega (arith, sized);
      bytes_taken =
          sym (take-append-drop n bytes)
          ∙ ap (λ ys. take n bytes ++ ys) (sym (drop-add r.offs n r.buf));
    }

pub take_bytes-Consumes : (n : ℕ) → Consumes (take_bytes n) (λ a xs. (xs ≡ a) × (length a ≡ n))
unfolding take_bytes left
take_bytes-Consumes n = record {
  consumes = λ r r' a e. elim (Bool-cases (ltb (left r) n)) [
    | inl short ↦ absurd (cc (rw short at e))
    | inr long ↦
        let bytes = take n (drop r.offs r.buf) in
        let e' : ◌≡◌ {A = Option (List ℕ) × Reader}
            (some bytes, record { buf = r.buf; offs = r.offs + n }) (some a, r') =
          rw (long, take_bytes) at e in
        let same : bytes ≡ a = cc in
        let enough : n ≤ left r = ground (arith, long) in
        let sized =
          length-take_le n (drop r.offs r.buf) (omega (arith, enough, length-drop r.offs r.buf)) in
        (
          bytes,
          (same, ap length (sym same) ∙ sized),
          subst (Past r bytes) (ap (λ (p : Option (List ℕ) × Reader). p.1) e')
              (take-Past n r enough),
        )
  ];
}

decode-from_be_bytes :
    (n : ℕ) (bytes : List ℕ) (v : ℕ) → decode n bytes ≡ some v → v ≡ from_be_bytes bytes
unfolding decode
decode-from_be_bytes n bytes v e = elim (Bool-cases (length bytes == n)) [
  | inl sized ↦ cc (rw (sized, decode) at e)
  | inr other ↦ absurd (cc (rw (other, decode) at e))
]

pub read_number-Consumes :
    (n : ℕ) → Consumes (read_number n) (λ v xs. (length xs ≡ n) × (v ≡ from_be_bytes xs))
unfolding read_number
read_number-Consumes n =
    Consumes-weaken
      (λ v zs (bytes, xs, ys, split, (same, sized), (decoded, none_more)).
        let whole : zs ≡ bytes = split ∙ ap (λ ys'. xs ++ ys') none_more ∙ append-nil xs ∙ same in
        (
          ap length whole ∙ sized,
          decode-from_be_bytes n bytes v decoded ∙ ap from_be_bytes (sym whole),
        ))
      (Consumes->>= (take_bytes-Consumes n) (λ bytes. Consumes-or_none (decode n bytes)))
