-- ===== src/Codec/Laws.antt =====
-- puffin/src/codec.rs: what a codec promises, for its clients, and the codecs of the numbers.
use tlspuffin.Base.{
  ℕ, ◌%◌, ◌<◌, ◌≡◌, refl, sym, ap, ◌∙◌, subst, List, [], ◌∷◌, ◌++◌, Option, some, arith,
  append_assoc,
}
use tlspuffin.Codec.Reader.{Reader, init}
use tlspuffin.Codec.Numbers.{
  Codec, get_encoding, read_bytes, read_number, to_be_bytes, bound, u8_codec, u16_codec, u24_codec,
  u32_codec, u64_codec,
}
use tlspuffin.Codec.Reads.{Reads, read_number-Reads}

-- Encoding appends the encoding of a value to what is there, and reading takes exactly the encoding
-- of a valid value and gives that value back.
pub record IsLawful {T : Type 0} (c : Codec T) (IsValid : T → Type 0) : Type 0 where
  pub encode-append : (x : T) (bytes : List ℕ) → c.encode x bytes ≡ bytes ++ get_encoding c x
  pub encode-Reads : (x : T) → IsValid x → Reads c.read x (get_encoding c x)

module _ {T : Type 0} (c : Codec T) {IsValid : T → Type 0} (law : IsLawful c IsValid) where
  -- Reading the encoding of a valid value of a lawful codec gives the value, whatever stands behind
  -- the encoding.
  pub read_bytes-get_encoding :
      (x : T) (after : List ℕ) → IsValid x → read_bytes c (get_encoding c x ++ after) ≡ some x
  unfolding read_bytes init
  read_bytes-get_encoding x after valid =
      let e =
        (law.encode-Reads x valid).reads (init (get_encoding c x ++ after)) after
          (unfold init in refl) in
      ap (λ (p : Option T × Reader). p.0) e

-- A codec whose encoding is known and reads back.
pub of_encoding-IsLawful :
    {T : Type 0} {c : Codec T} {IsValid : T → Type 0} (encoding : T → List ℕ)
    → ((x : T) (bytes : List ℕ) → c.encode x bytes ≡ bytes ++ encoding x)
    → ((x : T) → IsValid x → Reads c.read x (encoding x))
    → IsLawful c IsValid
unfolding get_encoding
of_encoding-IsLawful {c} encoding appends reads = record {
  encode-append = λ x bytes. appends x bytes ∙ ap (λ xs. bytes ++ xs) (sym (appends x []));
  encode-Reads = λ x valid. subst (Reads c.read x) (sym (appends x [])) (reads x valid);
}

-- One value of several that are encoded one after the other.
pub encode_then :
    {T : Type 0} {c : Codec T} {IsValid : T → Type 0} {all : List ℕ}
    → IsLawful c IsValid
    → (x : T) (bytes rest : List ℕ) → all ≡ c.encode x bytes ++ rest
    → all ≡ bytes ++ (get_encoding c x ++ rest)
encode_then {c} law x bytes rest e =
    e
    ∙ ap (λ bs. bs ++ rest) (law.encode-append x bytes)
    ∙ append_assoc bytes (get_encoding c x) rest

-- A number below `256 ^ n` in `n` bytes.
abbrev pub IsNumber : ℕ → ℕ → Type 0
IsNumber n v = v < bound n

to_be_bytes-IsLawful :
    (n : ℕ) (c : Codec ℕ)
    → ((v : ℕ) (bytes : List ℕ) → c.encode v bytes ≡ bytes ++ to_be_bytes n v)
    → c.read ≡ read_number n
    → IsLawful c (IsNumber n)
unfolding get_encoding
to_be_bytes-IsLawful n c encodes same = record {
  encode-append = λ v bytes. encodes v bytes ∙ ap (λ xs. bytes ++ xs) (sym (encodes v []));
  encode-Reads = λ v valid.
      subst (λ m. Reads m v (c.encode v [])) (sym same)
        (subst (Reads (read_number n) v) (sym (encodes v [])) (read_number-Reads n v valid));
}

pub u16_codec-IsLawful : IsLawful u16_codec (IsNumber 2)
unfolding u16_codec
u16_codec-IsLawful = to_be_bytes-IsLawful 2 u16_codec (λ v bytes. refl) refl

pub u24_codec-IsLawful : IsLawful u24_codec (IsNumber 3)
unfolding u24_codec
u24_codec-IsLawful = to_be_bytes-IsLawful 3 u24_codec (λ v bytes. refl) refl

pub u32_codec-IsLawful : IsLawful u32_codec (IsNumber 4)
unfolding u32_codec
u32_codec-IsLawful = to_be_bytes-IsLawful 4 u32_codec (λ v bytes. refl) refl

pub u64_codec-IsLawful : IsLawful u64_codec (IsNumber 8)
unfolding u64_codec
u64_codec-IsLawful = to_be_bytes-IsLawful 8 u64_codec (λ v bytes. refl) refl

pub u8_codec-IsLawful : IsLawful u8_codec (IsNumber 1)
unfolding u8_codec get_encoding
u8_codec-IsLawful = record {
  encode-append = λ v bytes. refl;
  encode-Reads = λ v valid.
      let same : v % 256 ≡ v = omega arith in
      subst (λ b. Reads (read_number 1) v (b ∷ [])) same (read_number-Reads 1 v valid);
}
