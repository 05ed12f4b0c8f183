-- ===== src/Ssh/WireLaws.antt =====
-- sshpuffin/src/ssh/message.rs: the bytes that a value was read from.
use tlspuffin.Base.{
  bytes_eq→≡, ℕ, ◌+◌, ◌/◌, ◌%◌, ◌^◌, ◌<◌, ◌≡◌, refl, sym, ap, ◌∙◌, subst, true, List, [], ◌∷◌, ◌++◌,
  length, take, drop, arith, ltb, append-nil, take-append, length-append, All, Bool-cases, inl, inr,
}
use tlspuffin.Codec.Reader.{Reader, peek, left}
use tlspuffin.Codec.Numbers.{u8_codec, u32_codec, get_encoding, to_be_bytes, from_be_bytes}
use tlspuffin.Codec.Consumes.{
  Consumes, Consumes->>=, Consumes-weaken, Consumes-pure, take_bytes-Consumes, read_number-Consumes,
}
use tlspuffin.Ssh.Packets.{
  banner, packet, payload_length_of, packet_codec, banner_bytes, is_banner, read_raw,
}
use tlspuffin.Ssh.PacketLaws.{packet_encoding, raw_encoding}

abbrev pub IsByte : ℕ → Type 0
IsByte b = b < 256

pub All-append_left {ℓ κ} :
    {A : Type ℓ} (P : A → Type κ) (xs ys : List A) → All P (xs ++ ys) → All P xs
All-append_left P [] ys h = tt
All-append_left P (x ∷ xs) ys h = (h.0, All-append_left P xs ys h.1)

pub All-append_right {ℓ κ} :
    {A : Type ℓ} (P : A → Type κ) (xs ys : List A) → All P (xs ++ ys) → All P ys
All-append_right P [] ys h = h
All-append_right P (x ∷ xs) ys h = All-append_right P xs ys h.1

no_bytes : (xs : List ℕ) → length xs ≡ 0 → xs ≡ []
no_bytes [] h = refl
no_bytes (x ∷ xs) h = absurd (omega (arith, h))

-- A u32 from its four bytes is written as these bytes.
u32_bytes :
    (xs : List ℕ)
    → length xs ≡ 4
    → All IsByte xs
    → (to_be_bytes 4 (from_be_bytes xs) ≡ xs) × (from_be_bytes xs < 2 ^ 32)
u32_bytes (a ∷ b ∷ c ∷ d ∷ []) h small =
    let v = from_be_bytes (a ∷ b ∷ c ∷ d ∷ []) in
    let first : v / 256 / 256 / 256 % 256 ≡ a =
      omega (arith, small.0, small.1.0, small.1.1.0, small.1.1.1.0) in
    let second : v / 256 / 256 % 256 ≡ b =
      omega (arith, small.0, small.1.0, small.1.1.0, small.1.1.1.0) in
    let third : v / 256 % 256 ≡ c = omega (arith, small.0, small.1.0, small.1.1.0, small.1.1.1.0) in
    let fourth : v % 256 ≡ d = omega (arith, small.0, small.1.0, small.1.1.0, small.1.1.1.0) in
    (cc, omega (arith, small.0, small.1.0, small.1.1.0, small.1.1.1.0))
u32_bytes _ h small = absurd (omega (arith, h))

u8_bytes :
    (xs : List ℕ)
    → length xs ≡ 1
    → All IsByte xs
    → (from_be_bytes xs ∷ [] ≡ xs) × IsByte (from_be_bytes xs)
u8_bytes [] h small = absurd (omega (arith, h))
u8_bytes (a ∷ []) h small = (ap (λ x. x ∷ []) (omega arith), omega (arith, small.0))
u8_bytes (a ∷ b ∷ xs) h small = absurd (omega (arith, h))

-- The bytes, fewer than 2^63, are those that the value is encoded as, and there is one at least.
abbrev pub IsWritten : {A : Type 0} → (A → List ℕ) → A → List ℕ → Type 0
IsWritten encoding a xs = All IsByte xs → length xs < 2 ^ 63 → (encoding a ≡ xs) × (0 < length xs)

packet-IsWritten :
    (payload padding mac x4 x1 : List ℕ)
    → length x4 ≡ 4
    → length x1 ≡ 1
    → length payload ≡ payload_length_of (from_be_bytes x4) (from_be_bytes x1)
    → length padding ≡ from_be_bytes x1
    → mac ≡ []
    → IsWritten packet_encoding
        (record { payload = payload; random_padding = padding; mac = mac })
        (x4 ++ (x1 ++ (payload ++ (padding ++ mac))))
unfolding payload_length_of get_encoding u32_codec u8_codec
packet-IsWritten payload padding mac x4 x1 four one payload_size padding_size no_mac small short =
    let rest = payload ++ (padding ++ mac) in
    let (four_bytes, four_small) =
      u32_bytes x4 four (All-append_left IsByte x4 (x1 ++ rest) small) in
    let (one_byte, one_small) =
      u8_bytes x1 one
        (All-append_left IsByte x1 rest (All-append_right IsByte x4 (x1 ++ rest) small)) in
    let sizes4 = length-append x4 (x1 ++ rest) in
    let sizes1 = length-append x1 rest in
    let sizes_payload = length-append payload (padding ++ mac) in
    let length_back : (length payload + length padding + 1) % 2 ^ 32 ≡ from_be_bytes x4 = omega (
      arith, payload_size, padding_size, four_small, one_small, sizes4, sizes1, sizes_payload,
      short,
    ) in
    let padding_back : length padding % 2 ^ 8 ≡ from_be_bytes x1 =
      omega (arith, padding_size, one_small) in
    (
      ap (λ n. to_be_bytes 4 n ++ (length padding % 2 ^ 8 ∷ rest)) length_back
          ∙ ap (λ ys. ys ++ (length padding % 2 ^ 8 ∷ rest)) four_bytes
          ∙ ap (λ n. x4 ++ (n ∷ rest)) padding_back
          ∙ ap (λ ys. x4 ++ (ys ++ rest)) one_byte,
      omega (arith, sizes4, four),
    )

packet_codec-Consumes : Consumes packet_codec.read (IsWritten packet_encoding)
unfolding packet_codec u32_codec u8_codec
packet_codec-Consumes =
    Consumes-weaken
      (λ p xs
          (
            n,
            x4,
            y4,
            s4,
            (four, n_eq),
            (
              pad,
              x1,
              y1,
              s1,
              (one, pad_eq),
              (
                payload,
                x3,
                y3,
                s3,
                (same3, size3),
                (
                  padding,
                  x5,
                  y5,
                  s5,
                  (same5, size5),
                  (mac, x6, y6, s6, (same6, size6), (made, nothing)),
                ),
              ),
            ),
          ).
        let no_mac = no_bytes mac size6 in
        let end : y5 ≡ mac = s6 ∙ ap (λ zs. x6 ++ zs) nothing ∙ append-nil x6 ∙ same6 in
        let whole : x4 ++ (x1 ++ (payload ++ (padding ++ mac))) ≡ xs = cc in
        let made_from =
          packet-IsWritten payload padding mac x4 x1 four one
            (size3
              ∙ ap (λ k. payload_length_of k pad) n_eq
              ∙ ap (payload_length_of (from_be_bytes x4)) pad_eq)
            (size5 ∙ pad_eq) no_mac in
        subst (λ q. IsWritten packet_encoding q xs) made
          (subst
            (IsWritten packet_encoding
              (record { payload = payload; random_padding = padding; mac = mac }))
            whole made_from))
      (Consumes->>= (read_number-Consumes 4) λ n. Consumes->>= (read_number-Consumes 1) λ pad.
        Consumes->>= (take_bytes-Consumes (payload_length_of n pad)) λ payload.
          Consumes->>= (take_bytes-Consumes pad)
            λ padding. Consumes->>= (take_bytes-Consumes 0) λ mac. Consumes-pure _)

-- A reader that is in front of a banner has the bytes of the banner next.
is_banner-take :
    (r : Reader)
    → is_banner r ≡ true
    → take (length banner_bytes) (drop r.offs r.buf) ≡ banner_bytes
unfolding is_banner peek
is_banner-take r e = elim (Bool-cases (ltb (left r) (length banner_bytes))) [
  | inl short ↦ absurd (cc (rw (short, is_banner, peek) at e))
  | inr long ↦
      bytes_eq→≡ (take (length banner_bytes) (drop r.offs r.buf)) banner_bytes
        (rw (long, is_banner, peek) at e)
]

-- What is read from the wire is encoded as the bytes that were taken.
pub read_raw-Consumes : Consumes read_raw (IsWritten raw_encoding)
unfolding read_raw
read_raw-Consumes = record {
  consumes = λ r r' m e. elim (Bool-cases (is_banner r)) [
    | inl found ↦
        let (xs, (bytes, xs1, ys, split, (same, sized), (made, nothing)), past) =
          (Consumes->>= (take_bytes-Consumes (length banner_bytes))
              (λ taken. Consumes-pure (banner banner_bytes))).consumes
            r r' m (rw (found, read_raw) at e) in
        let whole : xs ≡ bytes = split ∙ ap (λ zs. xs1 ++ zs) nothing ∙ append-nil xs1 ∙ same in
        let size : length xs ≡ length banner_bytes = ap length whole ∙ sized in
        let text : xs ≡ banner_bytes =
          sym (ap (take (length xs)) past.bytes_taken ∙ take-append xs (drop r'.offs r'.buf))
          ∙ ap (λ n. take n (drop r.offs r.buf)) size
          ∙ is_banner-take r found in
        (
          xs,
          subst (λ q. IsWritten raw_encoding q xs) made
              (λ small short. (sym text, omega (arith, size))),
          past,
        )
    | inr other ↦
        let (xs, (p, xs1, ys, split, written, (made, nothing)), past) =
          (Consumes->>= packet_codec-Consumes (λ p. Consumes-pure (packet p))).consumes r r' m
            (rw (other, read_raw) at e) in
        let whole : xs1 ≡ xs = sym (split ∙ ap (λ zs. xs1 ++ zs) nothing ∙ append-nil xs1) in
        (
          xs,
          subst (λ q. IsWritten raw_encoding q xs) made
              (subst (IsWritten packet_encoding p) whole written),
          past,
        )
  ];
}
