-- ===== src/Codec/Reads.antt =====
-- Reading back what was encoded, wherever it stands in the bytes: the law that the codecs share, and
-- how it composes.
use tlspuffin.Base.{
  ℕ, ◌+◌, ◌≤◌, ◌<◌, ◌≡◌, ap, ◌∙◌, subst, true, false, List, [], ◌++◌, length, take, drop, Option,
  none, some, ltb, ◌==◌, arith, append_assoc, length-append, take-append, drop-append, length-drop,
  drop-add,
}
use tlspuffin.Codec.Reader.{Reader, Read, ◌>>=◌, pure, or_none, take_bytes, left}
use tlspuffin.Codec.Numbers.{
  read_number, decode, bound, to_be_bytes, length-to_be_bytes, from_be_bytes-to_be_bytes,
}

-- The bytes that are left to read are `xs`, and then others.
abbrev pub IsBefore : List ℕ → List ℕ → Reader → Type 0
IsBefore xs after r = drop r.offs r.buf ≡ xs ++ after

abbrev pub moved : Reader → ℕ → Reader
moved r n = record { buf = r.buf; offs = r.offs + n }

-- The read takes exactly `xs` and gives the value, whatever stands behind `xs`.
pub record Reads {A : Type 0} (m : Read A) (a : A) (xs : List ℕ) : Type 0 where
  pub reads :
      (r : Reader) (after : List ℕ) → IsBefore xs after r → m r ≡ (some a, moved r (length xs))

pub moved_on :
    (xs ys after : List ℕ) (r : Reader)
    → IsBefore (xs ++ ys) after r
    → IsBefore ys after (moved r (length xs))
moved_on xs ys after r e =
    drop-add r.offs (length xs) r.buf
    ∙ ap (drop (length xs)) (e ∙ append_assoc xs ys after)
    ∙ drop-append xs (ys ++ after)

pub IsBefore-left : (xs after : List ℕ) (r : Reader) → IsBefore xs after r → length xs ≤ left r
unfolding left
IsBefore-left xs after r e =
    let split = length-append xs after in
    let rest = length-drop r.offs r.buf in
    let same = ap length e in omega (arith, split, rest, same)

pub Reads-pure : {A : Type 0} (a : A) → Reads (pure a) a []
Reads-pure a = record {
  reads = λ r after e. ap (λ n. (some a, record { buf = r.buf; offs = n })) (omega arith);
}

module _ {A B : Type 0} where
  pub Reads->>= :
      {m : Read A} (f : A → Read B) {a : A} {b : B} {xs ys : List ℕ}
      → Reads m a xs
      → Reads (f a) b ys
      → Reads (m >>= f) b (xs ++ ys)
  unfolding ◌>>=◌
  Reads->>= {m} f {a} {b} {xs} {ys} h k = record {
    reads = λ r after e.
        let first = h.reads r (ys ++ after) (e ∙ append_assoc xs ys after) in
        let second = k.reads (moved r (length xs)) after (moved_on xs ys after r e) in
        ap (λ (p : Option A × Reader). elim p.0 [ none ↦ (none, p.1) | some x ↦ f x p.1 ]) first
        ∙ second
        ∙ ap (λ n. (some b, record { buf = r.buf; offs = n })) (omega (arith, length-append xs ys));
  }

  -- A last step that reads nothing.
  pub Reads-last :
      {m : Read A} (f : A → Read B) {a : A} {b : B} {xs : List ℕ}
      → Reads m a xs
      → ((r : Reader) → f a r ≡ (some b, r))
      → Reads (m >>= f) b xs
  unfolding ◌>>=◌
  Reads-last {m} f {a} {b} {xs} h k = record {
    reads = λ r after e.
        ap (λ (p : Option A × Reader). elim p.0 [ none ↦ (none, p.1) | some x ↦ f x p.1 ])
          (h.reads r after e)
        ∙ k (moved r (length xs));
  }

-- `take` gives the bytes in front of the reader.
pub take_bytes-Reads : (xs : List ℕ) → Reads (take_bytes (length xs)) xs xs
unfolding take_bytes
take_bytes-Reads xs = record {
  reads = λ r after e.
      let enough : ltb (left r) (length xs) ≡ false = ground (arith, IsBefore-left xs after r e) in
      rw enough (
        ap (λ ys. (some ys, moved r (length xs))) (ap (take (length xs)) e ∙ take-append xs after));
}

pub read_number-Reads : (n v : ℕ) → v < bound n → Reads (read_number n) v (to_be_bytes n v)
unfolding read_number decode
read_number-Reads n v small =
    Reads-last (λ bytes. or_none (decode n bytes))
      (subst (λ k. Reads (take_bytes k) (to_be_bytes n v) (to_be_bytes n v))
        (length-to_be_bytes n v) (take_bytes-Reads (to_be_bytes n v)))
      (λ r. ap (λ (o : Option ℕ). (o, r)) decoded)
  where
    decoded : decode n (to_be_bytes n v) ≡ some v
    decoded =
        let sized : (length (to_be_bytes n v) == n) ≡ true =
          ground (arith, length-to_be_bytes n v) in
        rw sized (ap some (from_be_bytes-to_be_bytes n v small))
