-- ===== src/Ssh/PacketLaws.antt =====
-- sshpuffin/src/ssh/message.rs: reading packets and messages from the wire.
use tlspuffin.Base.{
  bytes_eq, ℕ, ◌+◌, ◌%◌, ◌/◌, ◌^◌, ◌<◌, ◌≡◌, refl, sym, ap, ◌∙◌, subst, Bool, true, false, List, [],
  ◌∷◌, ◌++◌, length, take, drop, replicate, some, ltb, arith, Bool-cases, inl, inr, append_assoc,
  append-nil,
}
use tlspuffin.Codec.Reader.{Reader, ◌>>=◌, pure, take_bytes, peek, left}
use tlspuffin.Codec.Numbers.{u8_codec, u32_codec, read_bytes, get_encoding, bound, to_be_bytes}
use tlspuffin.Codec.Reads.{Reads, IsBefore, IsBefore-left, Reads->>=, Reads-last, take_bytes-Reads}
use tlspuffin.Codec.Laws.{
  IsLawful, of_encoding-IsLawful, encode_then, read_bytes-get_encoding, u8_codec-IsLawful,
  u32_codec-IsLawful,
}
use tlspuffin.Ssh.Messages.{SshMessage, message_codec}
use tlspuffin.Ssh.MessageLaws.{IsMessage, message_codec-IsLawful}
use tlspuffin.Ssh.Packets.{
  BinaryPacket, RawSshMessage, banner, packet, on_wire, payload_length_of, packet_codec,
  banner_bytes, is_banner, encode_raw, read_raw, raw_codec, create_opaque, try_from,
}

abbrev pub packet_length : BinaryPacket → ℕ
packet_length p = length p.payload + length p.random_padding + 1

-- A packet without a MAC whose lengths fit in a byte and a u32.
pub record IsPacket (p : BinaryPacket) : Type 0 where
  pub no_mac : p.mac ≡ []
  pub short_padding : length p.random_padding < bound 1
  pub short : packet_length p < bound 4

abbrev pub packet_encoding : BinaryPacket → List ℕ
packet_encoding p =
    get_encoding u32_codec (packet_length p % 2 ^ 32)
    ++ (get_encoding u8_codec (length p.random_padding % 2 ^ 8)
        ++ (p.payload ++ (p.random_padding ++ p.mac)))

pub packet_codec-appends :
    (p : BinaryPacket) (bytes : List ℕ) → packet_codec.encode p bytes ≡ bytes ++ packet_encoding p
unfolding packet_codec
packet_codec-appends p bytes = encode_then u32_codec-IsLawful (packet_length p % 2 ^ 32) bytes _ (
    encode_then u8_codec-IsLawful (length p.random_padding % 2 ^ 8) _ _ (
      append_assoc _ p.random_padding p.mac ∙ append_assoc _ p.payload (p.random_padding ++ p.mac)))

packet_codec-Reads : (p : BinaryPacket) → IsPacket p → Reads packet_codec.read p (packet_encoding p)
unfolding packet_codec payload_length_of
packet_codec-Reads p h =
    let rest : payload_length_of (packet_length p % 2 ^ 32) (length p.random_padding % 2 ^ 8)
        ≡ length p.payload =
      omega (arith, h.short, h.short_padding) in
    let padding : length p.random_padding ≡ length p.random_padding % 2 ^ 8 =
      omega (arith, h.short_padding) in
    Reads->>= _ (u32_codec-IsLawful.encode-Reads (packet_length p % 2 ^ 32) (omega arith)) (
      Reads->>= _ (u8_codec-IsLawful.encode-Reads (length p.random_padding % 2 ^ 8) (omega arith)) (
        Reads->>= _
          (subst (λ n. Reads (take_bytes n) p.payload p.payload) (sym rest)
            (take_bytes-Reads p.payload))
          (Reads->>= _
            (subst (λ n. Reads (take_bytes n) p.random_padding p.random_padding) padding
              (take_bytes-Reads p.random_padding))
            (subst (λ m. Reads (take_bytes 0 >>= λ mac. pure (record p { mac = mac })) p m)
              (sym h.no_mac)
              (Reads-last _ (take_bytes-Reads [])
                (λ r. ap (λ m. (some (record p { mac = m }), r)) (sym h.no_mac)))))))

-- Packets are a lawful codec.
pub packet_codec-IsLawful : IsLawful packet_codec IsPacket
packet_codec-IsLawful = of_encoding-IsLawful packet_encoding packet_codec-appends packet_codec-Reads

-- What starts with a zero is no banner.
is_banner-zero : (xs after : List ℕ) (r : Reader) → IsBefore (0 ∷ xs) after r → is_banner r ≡ false
unfolding is_banner peek
is_banner-zero xs after r e = elim (Bool-cases (ltb (left r) 24)) [
  | inl short ↦ rw (short, is_banner, peek) refl
  | inr long ↦ rw (long, is_banner, peek) (ap (λ ys. bytes_eq (take 24 ys) banner_bytes) e)
]

is_banner-banner :
    (after : List ℕ) (r : Reader) → IsBefore banner_bytes after r → is_banner r ≡ true
unfolding is_banner peek
is_banner-banner after r e =
    let long : ltb (left r) 24 ≡ false = ground (arith, IsBefore-left banner_bytes after r e) in
    rw (long, is_banner, peek) (ap (λ ys. bytes_eq (take 24 ys) banner_bytes) e)

-- What reads back from the wire: the one banner that the code knows, and packets without a MAC, with less
-- than 256 bytes of padding and a packet length below 2^24, which are not taken for a banner.
abbrev pub IsRaw : RawSshMessage → Type 0
IsRaw (banner text) = text ≡ banner_bytes
IsRaw (packet p) = IsPacket p × (packet_length p < bound 3)
IsRaw (on_wire slice) = ⊥

abbrev pub raw_encoding : RawSshMessage → List ℕ
raw_encoding (banner text) = text
raw_encoding (packet p) = packet_encoding p
raw_encoding (on_wire slice) = slice

pub raw_codec-appends :
    (m : RawSshMessage) (bytes : List ℕ) → raw_codec.encode m bytes ≡ bytes ++ raw_encoding m
unfolding raw_codec encode_raw
raw_codec-appends (banner text) bytes = refl
raw_codec-appends (packet p) bytes = packet_codec-appends p bytes
raw_codec-appends (on_wire slice) bytes = refl

starts_with_zero :
    (v : ℕ) (rest : List ℕ)
    → v < bound 3
    → to_be_bytes 4 v ++ rest ≡ 0 ∷ drop 1 (to_be_bytes 4 v ++ rest)
starts_with_zero v rest short =
    let first : v / 256 / 256 / 256 % 256 ≡ 0 = omega arith in
    ap (λ b. b ∷ drop 1 (to_be_bytes 4 v ++ rest)) first

banner-Reads : Reads read_raw (banner banner_bytes) banner_bytes
unfolding read_raw
banner-Reads = record {
  reads = λ r after e. rw (is_banner-banner after r e) (
      (Reads-last (λ taken. pure (banner banner_bytes)) (take_bytes-Reads banner_bytes)
          (λ r'. refl)).reads
        r after e);
}

pub raw_codec-Reads : (m : RawSshMessage) → IsRaw m → Reads raw_codec.read m (raw_encoding m)
unfolding raw_codec read_raw get_encoding u32_codec
raw_codec-Reads (banner text) h = subst (λ xs. Reads read_raw (banner xs) xs) (sym h) banner-Reads
raw_codec-Reads (packet p) (h, short) = record {
  reads = λ r after e.
      let size = to_be_bytes 4 (packet_length p % 2 ^ 32) in
      let rest =
        get_encoding u8_codec (length p.random_padding % 2 ^ 8)
        ++ (p.payload ++ (p.random_padding ++ p.mac)) in
      let zero_first = starts_with_zero (packet_length p % 2 ^ 32) rest (omega (arith, short)) in
      let not_banner =
        is_banner-zero (drop 1 (size ++ rest)) after r (e ∙ ap (λ ys. ys ++ after) zero_first) in
      rw not_banner
        ((Reads-last (λ q. pure (packet q)) (packet_codec-Reads p h) (λ r'. refl)).reads r after e);
}
raw_codec-Reads (on_wire slice) h = absurd h

-- The codec of what is on the wire is lawful for the one banner that the code knows, and for packets without
-- a MAC, with less than 256 bytes of padding and a packet length below 2^24.
pub raw_codec-IsLawful : IsLawful raw_codec IsRaw
raw_codec-IsLawful = of_encoding-IsLawful raw_encoding raw_codec-appends raw_codec-Reads

module _ (is_utf8 : List ℕ → Bool) where
  -- A valid message whose encoding is at least nine bytes shorter than 2^24 goes over the wire: the
  -- packet that `create_opaque` makes of it reads back, whatever stands behind it, and `try_from`
  -- finds the message in that packet.
  pub create_opaque-wire :
      (m : SshMessage) (after : List ℕ)
      → IsMessage is_utf8 m
      → length (get_encoding (message_codec is_utf8) m) + 8 < bound 3
      → (p : BinaryPacket) × (read_bytes raw_codec
            (get_encoding raw_codec (create_opaque is_utf8 m) ++ after)
          ≡ some (packet p))
        × (try_from is_utf8 p ≡ some m)
  unfolding create_opaque try_from
  create_opaque-wire m after valid short =
      let payload = get_encoding (message_codec is_utf8) m in
      let p : BinaryPacket = record {
        payload = payload;
        random_padding = replicate 7 0;
        mac = [];
      } in
      let p-IsPacket : IsPacket p = record {
        no_mac = refl;
        short_padding = omega arith;
        short = omega arith;
      } in
      (
        p,
        read_bytes-get_encoding raw_codec raw_codec-IsLawful (packet p) after
            (p-IsPacket, omega arith),
        ap (read_bytes (message_codec is_utf8)) (sym (append-nil payload))
            ∙ read_bytes-get_encoding (message_codec is_utf8) (message_codec-IsLawful is_utf8) m []
                valid,
      )
