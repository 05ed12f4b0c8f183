-- ===== src/Codec/VectorLaws.antt =====
-- puffin/src/codec.rs: reading vectors of a lawful codec.
use tlspuffin.Base.{
  ℕ, zero, suc, ◌+◌, ◌-◌, ◌≤◌, ◌<◌, ◌≡◌, refl, sym, ap, ◌∙◌, subst, true, false, List, [], ◌∷◌,
  ◌++◌, length, take, drop, replicate, Option, none, some, ltb, if◌then◌else◌, arith, append_assoc,
  append-nil, length-append, take-append, drop-append, length-drop, All, and_then,
}
use tlspuffin.Codec.Reader.{Reader, Read, ◌>>=◌, or_none, any_left, sub, init}
use tlspuffin.Codec.Numbers.{
  Codec, get_encoding, to_be_bytes, read_number, bound, length-to_be_bytes,
}
use tlspuffin.Codec.Reads.{
  Reads, IsBefore, moved, moved_on, Reads->>=, Reads-last, take_bytes-Reads, read_number-Reads,
}
use tlspuffin.Codec.Laws.{IsLawful}
use tlspuffin.Codec.Vectors.{
  write_at, encode_all, encode_vec, encode_vec_u8, encode_vec_u16, encode_vec_u24, read_all,
  read_items, read_vec_u8, read_vec_u16, read_vec_u24_limited,
}

pub length-zeros : (n : ℕ) → length (replicate {A = ℕ} n 0) ≡ n
length-zeros zero = refl
length-zeros (suc n) = ap suc (length-zeros n)

-- Bytes written over as many bytes.
write_at-middle :
    (pre xs ys post : List ℕ)
    → length xs ≡ length ys
    → write_at (length pre) xs ((pre ++ ys) ++ post) ≡ pre ++ (xs ++ post)
write_at-middle pre xs ys post same =
    let shape : (pre ++ ys) ++ post ≡ pre ++ (ys ++ post) = append_assoc pre ys post in
    let front : take (length pre) ((pre ++ ys) ++ post) ≡ pre =
      ap (take (length pre)) shape ∙ take-append pre (ys ++ post) in
    let back : drop (length pre + length xs) ((pre ++ ys) ++ post) ≡ post =
      ap (λ k. drop (length pre + k) ((pre ++ ys) ++ post)) same
      ∙ ap (λ k. drop k ((pre ++ ys) ++ post)) (sym (length-append pre ys))
      ∙ drop-append (pre ++ ys) post in
    ap (λ front'. front' ++ (xs ++ drop (length pre + length xs) ((pre ++ ys) ++ post))) front
    ∙ ap (λ back'. pre ++ (xs ++ back')) back

-- When nothing follows `xs`, bytes are left if `xs` is not empty.
any_left_lem : (xs : List ℕ) (r : Reader) → IsBefore xs [] r → any_left r ≡ ltb 0 (length xs)
unfolding any_left
any_left_lem xs r e =
    let same = ap length (e ∙ append-nil xs) in
    let left_bytes = length-drop r.offs r.buf in ground (arith, same, left_bytes)

module _ {T : Type 0} (c : Codec T) where
  -- The encodings of the items, one after the other.
  abbrev pub encodings : List T → List ℕ
  encodings [] = []
  encodings (x ∷ xs) = get_encoding c x ++ encodings xs

module _ {T : Type 0} (c : Codec T) (IsValid : T → Type 0) where
  -- A vector of valid items of at least a byte each, whose encodings are shorter than what a length of
  -- `n` bytes can say.
  abbrev pub IsVector : ℕ → List T → Type 0
  IsVector n items =
      All IsValid items
      × All (λ x. 0 < length (get_encoding c x)) items
      × (length (encodings c items) < bound n)

module _ {T : Type 0} (c : Codec T) {IsValid : T → Type 0} (law : IsLawful c IsValid) where
  pub encode_all-append :
      (items : List T) (bytes : List ℕ) → encode_all c items bytes ≡ bytes ++ encodings c items
  unfolding encode_all
  encode_all-append [] bytes = sym (append-nil bytes)
  encode_all-append (x ∷ xs) bytes =
      encode_all-append xs (c.encode x bytes)
      ∙ ap (λ bs. bs ++ encodings c xs) (law.encode-append x bytes)
      ∙ append_assoc bytes (get_encoding c x) (encodings c xs)

  encode_vec-append :
      (n : ℕ) (bytes : List ℕ) (items : List T)
      → encode_vec c n bytes items
        ≡ bytes ++ (to_be_bytes n (length (encodings c items)) ++ encodings c items)
  unfolding encode_vec
  encode_vec-append n bytes items =
      let all = encode_all-append items (bytes ++ replicate n 0) in
      let es = encodings c items in
      let size : length ((bytes ++ replicate n 0) ++ es) - length bytes - n ≡ length es = omega (
        arith,
        length-append (bytes ++ replicate n 0) es,
        length-append bytes (replicate n 0),
        length-zeros n,
      ) in
      ap (λ bs. write_at (length bytes) (to_be_bytes n (length bs - length bytes - n)) bs) all
      ∙ ap (λ k. write_at (length bytes) (to_be_bytes n k) ((bytes ++ replicate n 0) ++ es)) size
      ∙ write_at-middle bytes (to_be_bytes n (length es)) (replicate n 0) es
          (length-to_be_bytes n (length es) ∙ sym (length-zeros n))

  read_all-encodings :
      (fuel : ℕ) (items : List T) (r : Reader)
      → All IsValid items
      → All (λ x. 0 < length (get_encoding c x)) items
      → IsBefore (encodings c items) [] r
      → length (encodings c items) ≤ fuel
      → read_all c fuel r ≡ some items
  unfolding read_all
  read_all-encodings zero [] r valid some_bytes e enough = rw (any_left_lem [] r e) refl
  read_all-encodings (suc fuel) [] r valid some_bytes e enough = rw (any_left_lem [] r e) refl
  read_all-encodings zero (x ∷ xs) r valid some_bytes e enough =
      absurd (omega (arith, length-append (get_encoding c x) (encodings c xs), some_bytes.0))
  read_all-encodings (suc fuel) (x ∷ xs) r valid some_bytes e enough =
      let sizes = length-append (get_encoding c x) (encodings c xs) in
      let more : ltb 0 (length (get_encoding c x ++ encodings c xs)) ≡ true =
        ground (arith, sizes, some_bytes.0) in
      let first =
        (law.encode-Reads x valid.0).reads r (encodings c xs)
          (e ∙ append-nil (get_encoding c x ++ encodings c xs)) in
      let rest =
        read_all-encodings fuel xs (moved r (length (get_encoding c x))) valid.1 some_bytes.1
          (moved_on (get_encoding c x) (encodings c xs) [] r e)
          (omega (arith, sizes, some_bytes.0, enough)) in
      rw (any_left_lem (get_encoding c x ++ encodings c xs) r e, more)
        (ap
            (λ (p : Option T × Reader). elim p.0 [
              | none ↦ none
              | some y ↦ elim (read_all c fuel p.1) [ none ↦ none | some ys ↦ some (y ∷ ys) ]
            ])
            first
          ∙ ap (λ (o : Option (List T)). elim o [ none ↦ none | some ys ↦ some (x ∷ ys) ]) rest)

  sub-Reads : (xs : List ℕ) → Reads (sub (length xs)) (init xs) xs
  unfolding sub
  sub-Reads xs = record {
    reads = λ r after e.
        ap (λ (p : Option (List ℕ) × Reader). (and_then p.0 (λ b. some (init b)), p.1))
          ((take_bytes-Reads xs).reads r after e);
  }

  read_items-Reads :
      (items : List T)
      → All IsValid items
      → All (λ x. 0 < length (get_encoding c x)) items
      → Reads (read_items c (length (encodings c items))) items (encodings c items)
  unfolding read_items
  read_items-Reads items valid some_bytes =
      Reads-last (λ r. or_none (read_all c (length r.buf) r)) (sub-Reads (encodings c items))
        λ r.
          ap (λ o. (o, r))
            (read_all-encodings (length (init (encodings c items)).buf) items
              (init (encodings c items)) valid some_bytes
              (unfold init in sym (append-nil (encodings c items))) (unfold init in omega arith))

  read_vec-Reads :
      (n : ℕ) (items : List T)
      → IsVector c IsValid n items
      → Reads
          (read_number n >>= read_items c)
          items
          (to_be_bytes n (length (encodings c items)) ++ encodings c items)
  read_vec-Reads n items (valid, some_bytes, small) =
      Reads->>= (read_items c) (read_number-Reads n (length (encodings c items)) small)
        (read_items-Reads items valid some_bytes)

  vec-IsLawful :
      (n : ℕ) (encode : List ℕ → List T → List ℕ) (read : Read (List T))
      → encode ≡ encode_vec c n
      → read ≡ (read_number n >>= read_items c)
      → IsLawful
          (record { encode = λ items bytes. encode bytes items; read = read })
          (IsVector c IsValid n)
  unfolding get_encoding
  vec-IsLawful n encode read same_encode same_read =
      let appends = λ (items : List T) (bytes : List ℕ).
        ap (λ f. f bytes items) same_encode ∙ encode_vec-append n bytes items in
      record {
        encode-append =
            λ items bytes. appends items bytes ∙ ap (λ xs. bytes ++ xs) (sym (appends items []));
        encode-Reads = λ items valid.
            subst (λ m. Reads m items (encode [] items)) (sym same_read)
              (subst (Reads (read_number n >>= read_items c) items) (sym (appends items []))
                (read_vec-Reads n items valid));
      }

  -- Vectors with a length of one byte over a lawful codec are a lawful codec, for valid items of at
  -- least one byte each whose encodings together are shorter than 2^8 bytes.
  pub vec_u8-IsLawful :
      IsLawful
        (record { encode = λ items bytes. encode_vec_u8 c bytes items; read = read_vec_u8 c })
        (IsVector c IsValid 1)
  unfolding encode_vec_u8 read_vec_u8
  vec_u8-IsLawful = vec-IsLawful 1 (encode_vec_u8 c) (read_vec_u8 c) refl refl

  -- Vectors with a length of two bytes over a lawful codec are a lawful codec, for valid items of
  -- at least one byte each whose encodings together are shorter than 2^16 bytes.
  vec_u16-IsLawful :
      IsLawful
        (record { encode = λ items bytes. encode_vec_u16 c bytes items; read = read_vec_u16 c })
        (IsVector c IsValid 2)
  unfolding encode_vec_u16 read_vec_u16
  vec_u16-IsLawful = vec-IsLawful 2 (encode_vec_u16 c) (read_vec_u16 c) refl refl

  -- What `encode_vec_u24` writes for valid items of at least one byte each, shorter than 2^24 bytes
  -- together, is read back by `read_vec_u24_limited` if it is within the limit.
  vec_u24-Reads :
      (max_bytes : ℕ) (items : List T)
      → IsVector c IsValid 3 items
      → length (encodings c items) ≤ max_bytes
      → Reads (read_vec_u24_limited c max_bytes) items (encode_vec_u24 c [] items)
  unfolding encode_vec_u24 read_vec_u24_limited
  vec_u24-Reads max_bytes items (valid, some_bytes, small) within_limit =
      let len = length (encodings c items) in
      let fits : ltb max_bytes len ≡ false = ground arith in
      subst (Reads (read_vec_u24_limited c max_bytes) items) (sym (encode_vec-append 3 [] items)) (
        Reads->>= (λ n. if ltb max_bytes n then or_none none else read_items c n)
          (read_number-Reads 3 len small) (rw fits (read_items-Reads items valid some_bytes)))
