-- ===== src/Stream/Queues.antt =====
-- puffin/src/stream.rs: the channels of a stream as two queues of bytes.
use tlspuffin.Base.{
  ℕ, zero, suc, ◌+◌, ◌-◌, ◌≤◌, ◌≡◌, refl, sym, ap, ◌∙◌, List, [], ◌∷◌, ◌++◌, length, take, drop,
  Result, ok, err, ◌==◌, if◌then◌else◌, Bool-cases, inl, inr, arith, append-nil, length-append,
  length-drop, drop-add,
}
use tlspuffin.Stream.Defs.{
  IoError, would_block, Channel, MemoryStream, read_stream, write_stream, add_message, cursor_write,
}

-- The bytes that the agent has still to read, and those that it has written.
pub record Queues : Type 0 where
  pub unread : List ℕ
  pub unsent : List ℕ

-- The calls of the two sides: a message comes in, the agent reads or writes.
pub data Call (Opaque : Type 0) : Type 0 where
  feed : Opaque → Call Opaque
  pull : ℕ → Call Opaque
  push : List ℕ → Call Opaque

pub data Reply : Type 0 where
  fed : Reply
  pulled : Result IoError (List ℕ) → Reply
  pushed : Result IoError ℕ → Reply

module _ {Opaque : Type 0} (encoding : Opaque → List ℕ) where
  -- What the calls mean on queues: bytes come out in the order in which they went in.
  abbrev pub on_queues : Call Opaque → Queues → Reply × Queues
  on_queues (feed m) q = (fed, record q { unread = q.unread ++ encoding m })
  on_queues (pull len) q =
      let received = take len q.unread in
      (
        pulled (if length received == 0 then err would_block else ok received),
        record q { unread = drop len q.unread },
      )
  on_queues (push buf) q = (pushed (ok (length buf)), record q { unsent = q.unsent ++ buf })

  abbrev pub run_queues : List (Call Opaque) → Queues → List Reply × Queues
  run_queues [] q = ([], q)
  run_queues (c ∷ cs) q =
      let (r, q') = on_queues c q in let (rs, q'') = run_queues cs q' in (r ∷ rs, q'')

module _ {D Opaque : Type 0} (encode : Opaque → List ℕ → List ℕ) where
  abbrev pub on_stream : Call Opaque → MemoryStream D → Reply × MemoryStream D
  on_stream (feed m) s = (fed, add_message encode m s)
  on_stream (pull len) s = let (r, s') = read_stream len s in (pulled r, s')
  on_stream (push buf) s = let (r, s') = write_stream buf s in (pushed r, s')

  abbrev pub run_stream : List (Call Opaque) → MemoryStream D → List Reply × MemoryStream D
  run_stream [] s = ([], s)
  run_stream (c ∷ cs) s =
      let (r, s') = on_stream c s in let (rs, s'') = run_stream cs s' in (r ∷ rs, s'')

drop-within : (n : ℕ) (xs ys : List ℕ) → n ≤ length xs → drop n (xs ++ ys) ≡ drop n xs ++ ys
drop-within zero xs ys h = refl
drop-within (suc n) [] ys h = absurd (omega arith)
drop-within (suc n) (x ∷ xs) ys h = drop-within n xs ys (omega arith)

drop-past : (n : ℕ) (xs : List ℕ) → length xs ≤ n → drop n xs ≡ []
drop-past zero [] h = refl
drop-past zero (x ∷ xs) h = absurd (omega arith)
drop-past (suc n) [] h = refl
drop-past (suc n) (x ∷ xs) h = drop-past n xs (omega arith)

pub take-past : (n : ℕ) (xs : List ℕ) → length xs ≤ n → take n xs ≡ xs
take-past zero [] h = refl
take-past zero (x ∷ xs) h = absurd (omega arith)
take-past (suc n) [] h = refl
take-past (suc n) (x ∷ xs) h = ap (◌∷◌ x) (take-past n xs (omega arith))

-- A write at the end appends.
cursor_write_end :
    (buf : List ℕ) (c : Channel)
    → c.position ≡ length c.bytes
    → (cursor_write buf c).bytes ≡ c.bytes ++ buf
cursor_write_end buf c e =
    let front = take-past c.position c.bytes (omega (arith, e)) in
    let gap : c.position - length c.bytes ≡ 0 = omega (arith, e) in
    let behind = drop-past (c.position + length buf) c.bytes (omega (arith, e)) in
    rw (front, gap, behind) (ap (λ xs. c.bytes ++ xs) (append-nil buf))

-- What a read of some bytes leaves.
drop-length-take : (n : ℕ) (xs : List ℕ) → drop (length (take n xs)) xs ≡ drop n xs
drop-length-take zero xs = refl
drop-length-take (suc n) [] = refl
drop-length-take (suc n) (x ∷ xs) = drop-length-take n xs

length-take-le : (n : ℕ) (xs : List ℕ) → length (take n xs) ≤ length xs
length-take-le zero xs = omega arith
length-take-le (suc n) [] = omega arith
length-take-le (suc n) (x ∷ xs) = omega (arith, length-take-le n xs)

module _ {D : Type 0} where
  abbrev pub view : MemoryStream D → Queues
  view s = record { unread = drop s.inbound.position s.inbound.bytes; unsent = s.outbound.bytes }

  -- The agent has read no more than there is, and writes at the end.
  pub record IsStream (s : MemoryStream D) : Type 0 where
    pub within : s.inbound.position ≤ length s.inbound.bytes
    pub at_end : s.outbound.position ≡ length s.outbound.bytes

module _ {D Opaque : Type 0} (encode : Opaque → List ℕ → List ℕ) (encoding : Opaque → List ℕ)
    (appends : (m : Opaque) (bytes : List ℕ) → encode m bytes ≡ bytes ++ encoding m) where
  -- A call does on a stream what it does on the queues.
  abbrev Agrees : Call Opaque → MemoryStream D → Type 0
  Agrees c s =
      let (r, s') = on_stream encode c s in
      IsStream s' × ((r, view s') ≡ on_queues encoding c (view s))

  feed-Agrees : (m : Opaque) (s : MemoryStream D) → IsStream s → Agrees (feed m) s
  unfolding add_message
  feed-Agrees m s h =
      let grown = appends m s.inbound.bytes in
      (
        record {
          within =
              omega (arith, h.within, ap length grown, length-append s.inbound.bytes (encoding m));
          at_end = h.at_end;
        },
        ap (λ (xs : List ℕ). (fed, record { unread = xs; unsent = s.outbound.bytes }))
            (ap (drop s.inbound.position) grown
              ∙ drop-within s.inbound.position s.inbound.bytes (encoding m) h.within),
      )

  push-Agrees : (buf : List ℕ) (s : MemoryStream D) → IsStream s → Agrees (push buf) s
  unfolding write_stream
  push-Agrees buf s h =
      let grown = cursor_write_end buf s.outbound h.at_end in
      (
        record {
          within = h.within;
          at_end = omega (arith, h.at_end, ap length grown, length-append s.outbound.bytes buf);
        },
        ap (λ (xs : List ℕ). (pushed (ok (length buf)), record (view s) { unsent = xs })) grown,
      )

  pull-Agrees : (len : ℕ) (s : MemoryStream D) → IsStream s → Agrees (pull len) s
  unfolding read_stream
  pull-Agrees len s h =
      let left = drop s.inbound.position s.inbound.bytes in
      let received = take len left in
      let position = s.inbound.position + length received in
      let left_after =
        drop-add s.inbound.position (length received) s.inbound.bytes ∙ drop-length-take len left in
      let size = length-drop s.inbound.position s.inbound.bytes in
      let few = length-take-le len left in
      let reply : Result IoError (List ℕ) =
        if length received == 0 then err would_block else ok received in
      elim (Bool-cases (position == length s.inbound.bytes)) [
        | inl all_read ↦
            let at : position ≡ length s.inbound.bytes = ground (arith, all_read) in
            rw (read_stream, all_read)
              (
                record { within = omega arith; at_end = h.at_end },
                ap
                    (λ (xs : List ℕ).
                      (pulled reply, record { unread = xs; unsent = s.outbound.bytes }))
                    (sym (drop-past position s.inbound.bytes (omega (arith, at))) ∙ left_after),
              )
        | inr more ↦
            rw (read_stream, more)
              (
                record { within = omega (arith, h.within, size, few); at_end = h.at_end },
                ap
                    (λ (xs : List ℕ).
                      (pulled reply, record { unread = xs; unsent = s.outbound.bytes }))
                    left_after,
              )
      ]

  on_stream-Agrees : (c : Call Opaque) (s : MemoryStream D) → IsStream s → Agrees c s
  on_stream-Agrees (feed m) s h = feed-Agrees m s h
  on_stream-Agrees (pull len) s h = pull-Agrees len s h
  on_stream-Agrees (push buf) s h = push-Agrees buf s h

  -- Where encoding a message appends its bytes, and a stream has read no more than it holds and
  -- writes at its end, any sequence of messages added and of reads and writes of its agent gives
  -- the replies that two queues of bytes give, and leaves the bytes that they leave; the stream is
  -- then again such a stream.
  pub run_stream-run_queues :
      (calls : List (Call Opaque)) (s : MemoryStream D)
      → IsStream s
      → let (rs, s') = run_stream encode calls s in
        IsStream s' × ((rs, view s') ≡ run_queues encoding calls (view s))
  run_stream-run_queues [] s h = (h, refl)
  run_stream-run_queues (c ∷ cs) s h =
      let (valid, agree) = on_stream-Agrees c s h in
      let (last, rest) = run_stream-run_queues cs (on_stream encode c s).1 valid in
      (
        last,
        ap (λ (out : List Reply × Queues). ((on_stream encode c s).0 ∷ out.0, out.1)) rest
            ∙ ap
                (λ (out : Reply × Queues).
                  let (rs, q) = run_queues encoding cs out.1 in (out.0 ∷ rs, q))
                agree,
      )
