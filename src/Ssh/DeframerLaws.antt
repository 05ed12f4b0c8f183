-- ===== src/Ssh/DeframerLaws.antt =====
-- sshpuffin/src/ssh/deframe.rs: one round of the loop of `read`, and the whole loop.
use tlspuffin.Base.{
  ℕ, zero, suc, ◌^◌, ◌<◌, ◌≤◌, ◌≡◌, refl, sym, ap, ◌∙◌, subst, true, List, [], ◌∷◌, ◌++◌, length,
  take, drop, Option, none, some, arith, ◌==◌, append-nil, append_assoc, length-append, drop-append,
  length-take_le, All, Bool-cases, inl, inr,
}
use tlspuffin.Codec.Reader.{Reader, init, used}
use tlspuffin.Ssh.Packets.{RawSshMessage, on_wire, read_raw}
use tlspuffin.Ssh.PacketLaws.{raw_encoding}
use tlspuffin.Ssh.WireLaws.{IsByte, All-append_left, All-append_right, read_raw-Consumes}
use tlspuffin.Ssh.Deframer.{
  SshMessageDeframer, BufferContents, valid, invalid, partial_message, buf_consume, try_deframe_one,
  deframe_all,
}
use tlspuffin.Ssh.BufferLaws.{pending, Consumed, buf_consume-Consumed}

-- One round of the loop: a frame, and the bytes that it is encoded as are gone.
pub record Round (d d' : SshMessageDeframer) : Type 0 where
  pub frame : RawSshMessage
  pub frames_more : d'.frames ≡ d.frames ++ frame ∷ []
  pub desynced_same : d'.desynced ≡ d.desynced
  pub size_same : length d'.buf ≡ length d.buf
  pub used_less : d'.used_bytes < d.used_bytes
  pub bytes_same : pending d ≡ raw_encoding frame ++ pending d'
  pub not_empty : 0 < length (raw_encoding frame)

Round-framed :
    (d : SshMessageDeframer) (m : RawSshMessage) (xs : List ℕ) (d' : SshMessageDeframer)
    → d.used_bytes ≤ length d.buf
    → raw_encoding m ≡ xs
    → 0 < length xs
    → length xs ≤ d.used_bytes
    → pending d ≡ xs ++ drop (length xs) (pending d)
    → Consumed (length xs) (record d { frames = d.frames ++ m ∷ [] }) d'
    → Round d d'
Round-framed d m xs d' fits same some_byte within split c = record {
  frame = m;
  frames_more = c.frames_same;
  desynced_same = c.desynced_same;
  size_same = c.size_same;
  used_less = omega (arith, c.used_less, some_byte, within);
  bytes_same =
      split
      ∙ ap (λ ys. ys ++ drop (length xs) (pending d)) (sym same)
      ∙ ap (λ ys. raw_encoding m ++ ys) (sym c.pending_dropped);
  not_empty = omega (arith, ap length same, some_byte);
}

-- What `try_deframe_one` makes of what it read.
abbrev pub outcome :
    SshMessageDeframer → Option RawSshMessage → Reader → BufferContents × SshMessageDeframer
outcome d message rd = elim message [
  | some m ↦ (valid, buf_consume (used rd) (record d { frames = d.frames ++ m ∷ [] }))
  | none ↦
      (valid, buf_consume d.used_bytes (record d { frames = d.frames ++ on_wire (pending d) ∷ [] }))
]

drop_all : (xs : List ℕ) → xs ≡ xs ++ drop (length xs) xs
drop_all xs =
    sym (append-nil xs)
    ∙ ap (λ ys. xs ++ ys) (sym (ap (drop (length xs)) (sym (append-nil xs)) ∙ drop-append xs []))

try_deframe_one-Round :
    (d : SshMessageDeframer)
    → 0 < d.used_bytes
    → d.used_bytes ≤ length d.buf
    → length d.buf < 2 ^ 63
    → All IsByte (pending d)
    → (d' : SshMessageDeframer) × (try_deframe_one d ≡ (valid, d')) × Round d d'
unfolding try_deframe_one
try_deframe_one-Round d some_used fits short small =
    by_message (read_raw (init (pending d))).0 (read_raw (init (pending d))).1 refl
  where
    by_message :
        (message : Option RawSshMessage) (rd : Reader)
        → read_raw (init (pending d)) ≡ (message, rd)
        → (d' : SshMessageDeframer) × (outcome d message rd ≡ (valid, d')) × Round d d'
    by_message none rd e =
        let size = length-take_le d.used_bytes d.buf fits in
        let framed = record d { frames = d.frames ++ on_wire (pending d) ∷ [] } in
        let consumed =
          subst (λ n. Consumed n framed (buf_consume d.used_bytes framed)) (sym size)
            (buf_consume-Consumed d.used_bytes framed (omega arith) fits) in
        (
          buf_consume d.used_bytes framed,
          refl,
          Round-framed d (on_wire (pending d)) (pending d) (buf_consume d.used_bytes framed) fits
              refl (omega (arith, size, some_used)) (omega (arith, size)) (drop_all (pending d))
              consumed,
        )
    by_message (some m) rd e =
        let (xs, written, past) = read_raw-Consumes.consumes (init (pending d)) rd m e in
        let framed = record d { frames = d.frames ++ m ∷ [] } in
        let rest = drop rd.offs rd.buf in
        let taken : pending d ≡ xs ++ rest = past.bytes_taken in
        let size = length-take_le d.used_bytes d.buf fits in
        let within : length xs ≤ d.used_bytes =
          omega (arith, size, ap length taken, length-append xs rest) in
        let (same, some_byte) =
          written (All-append_left IsByte xs rest (subst (All IsByte) taken small))
            (omega (arith, within, fits, short)) in
        let moved : rd.offs ≡ length xs = omega (arith, past.offs_moved) in
        let consumed =
          subst (λ n. Consumed (length xs) framed (buf_consume n framed)) (sym moved)
            (buf_consume-Consumed (length xs) framed within fits) in
        (
          buf_consume (used rd) framed,
          refl,
          Round-framed d m xs (buf_consume (used rd) framed) fits same some_byte within
              (taken
                ∙ ap (λ ys. xs ++ ys) (sym (ap (drop (length xs)) taken ∙ drop-append xs rest)))
              consumed,
        )

-- The encodings of the frames, one after the other.
abbrev pub wire : List RawSshMessage → List ℕ
wire [] = []
wire (m ∷ ms) = raw_encoding m ++ wire ms

-- New frames are added behind the old ones, their encodings are the given bytes, and no byte stays in
-- the buffer.
pub record Deframed (bytes : List ℕ) (d d' : SshMessageDeframer) : Type 0 where
  pub new_frames : List RawSshMessage
  pub frames_added : d'.frames ≡ d.frames ++ new_frames
  pub lossless : wire new_frames ≡ bytes
  pub few_frames : length new_frames ≤ length bytes
  pub none_used : d'.used_bytes ≡ 0
  pub desynced_same : d'.desynced ≡ d.desynced
  pub size_same : length d'.buf ≡ length d.buf

nothing_used : (d : SshMessageDeframer) → d.used_bytes ≡ 0 → Deframed (pending d) d d
nothing_used d zero_used = record {
  new_frames = [];
  frames_added = sym (append-nil d.frames);
  lossless = ap (λ n. take n d.buf) (sym zero_used);
  few_frames = omega arith;
  none_used = zero_used;
  desynced_same = refl;
  size_same = refl;
}

Round-Deframed :
    {d d' d'' : SshMessageDeframer}
    → Round d d'
    → Deframed (pending d') d' d''
    → Deframed (pending d) d d''
Round-Deframed {d} {d'} {d''} first rest = record {
  new_frames = first.frame ∷ rest.new_frames;
  frames_added =
      rest.frames_added
      ∙ ap (λ ms. ms ++ rest.new_frames) first.frames_more
      ∙ append_assoc d.frames (first.frame ∷ []) rest.new_frames;
  lossless = ap (λ ys. raw_encoding first.frame ++ ys) rest.lossless ∙ sym first.bytes_same;
  few_frames = omega (
    arith,
    ap length first.bytes_same,
    length-append (raw_encoding first.frame) (pending d'),
    first.not_empty,
    rest.few_frames,
  );
  none_used = rest.none_used;
  desynced_same = rest.desynced_same ∙ first.desynced_same;
  size_same = rest.size_same ∙ first.size_same;
}

pub deframe_all-Deframed :
    (fuel : ℕ) (d : SshMessageDeframer)
    → d.used_bytes ≤ length d.buf
    → length d.buf < 2 ^ 63
    → d.used_bytes ≤ fuel
    → All IsByte (pending d)
    → Deframed (pending d) d (deframe_all fuel d)
unfolding deframe_all
deframe_all-Deframed zero d fits short enough small = nothing_used d (omega arith)
deframe_all-Deframed (suc fuel) d fits short enough small = elim (Bool-cases (d.used_bytes == 0)) [
  | inl empty ↦ rw (empty, deframe_all) (nothing_used d (ground (arith, empty)))
  | inr some_used ↦
      let (d', one, first) = try_deframe_one-Round d (ground (arith, some_used)) fits short small in
      let rest =
        deframe_all-Deframed fuel d' (omega (arith, first.used_less, first.size_same, fits))
          (omega (arith, first.size_same, short)) (omega (arith, first.used_less, enough))
          (All-append_right IsByte (raw_encoding first.frame) (pending d')
            (subst (All IsByte) first.bytes_same small)) in
      rw (some_used, deframe_all)
        (subst
          (λ (p : BufferContents × SshMessageDeframer). Deframed (pending d) d (elim p.0 [
            | invalid ↦ record p.1 { desynced = true }
            | valid ↦ deframe_all fuel p.1
            | partial_message ↦ p.1
          ]))
          (sym one) (Round-Deframed first rest))
]
