-- ===== src/Stream/Outbound.antt =====
-- puffin/src/stream.rs, `take_message_from_outbound`: its loop.
use tlspuffin.Base.{
  ℕ, zero, suc, ◌≡◌, ◌≢◌, refl, sym, ◌∙◌, ap, false, List, [], take, if◌then◌else◌, Option, none,
  some, Result, ok, err, ◌==◌, Bool-cases, inl, inr, arith,
}
use tlspuffin.Trace.Evaluation.{Error, io}
use tlspuffin.Execution.Monad.{Stop, raised, out_of_fuel}
use tlspuffin.Execution.Put.{MessageResult}
use tlspuffin.Stream.Defs.{
  IoError, would_block, failed, ProtocolMessageDeframer, new_channel, MemoryStream, next_frame,
  take_message,
}

-- A read of no bytes takes none.
pub record IsDeframing {D Opaque : Type 0} (deframer : ProtocolMessageDeframer D Opaque)
    : Type 0 where
  pub at_empty : (d : D) (v : ℕ) → (deframer.read [] d).0 ≡ ok v → v ≡ 0

module _ {D Opaque : Type 0} (deframer : ProtocolMessageDeframer D Opaque) where
  -- What a round of the loop can come to.
  pub data Round (s : MemoryStream D) : Type 0 where
    popped :
        (m : Opaque) (d : D)
        → ((fuel : ℕ) → next_frame deframer (suc fuel) s ≡ (ok (some m), record s { deframer = d }))
        → Round s
    nothing :
        (s' : MemoryStream D)
        → (s.outbound ≡ new_channel → s'.outbound ≡ new_channel)
        → ((fuel : ℕ) → next_frame deframer (suc fuel) s ≡ (ok none, s'))
        → Round s
    broken :
        (e : Error) (s' : MemoryStream D)
        → (s.outbound ≡ new_channel → s'.outbound ≡ new_channel)
        → ((fuel : ℕ) → next_frame deframer (suc fuel) s ≡ (err (raised e), s'))
        → Round s
    again :
        (v : ℕ) (d d' : D)
        → deframer.read s.outbound.bytes d ≡ (ok v, d')
        → (v == 0) ≡ false
        → ((fuel : ℕ)
            → next_frame deframer (suc fuel) s
              ≡ next_frame deframer fuel (record s { outbound = new_channel; deframer = d' }))
        → Round s

  pub round : (s : MemoryStream D) → Round s
  unfolding next_frame
  round s = split (deframer.pop_frame s.deframer).0 refl
    where
      d : D
      d = (deframer.pop_frame s.deframer).1

      d' : D
      d' = (deframer.read s.outbound.bytes d).1

      read_split :
          (result : Result IoError ℕ)
          → (deframer.pop_frame s.deframer).0 ≡ none
          → (deframer.read s.outbound.bytes d).0 ≡ result
          → Round s
      read_split (ok v) e r = elim (Bool-cases (v == 0)) [
        | inl zero_read ↦
            nothing (record s { outbound = new_channel; deframer = d' }) (λ clear. refl)
              λ fuel. rw (next_frame, e, r, zero_read) refl
        | inr some_read ↦ again v d d' (cc) some_read λ fuel. rw (next_frame, e, r, some_read) refl
      ]
      read_split (err would_block) e r =
          nothing (record s { deframer = d' }) (λ clear. clear) λ fuel. rw (next_frame, e, r) refl
      read_split (err (failed text)) e r =
          broken (io text) (record s { deframer = d' }) (λ clear. clear)
            λ fuel. rw (next_frame, e, r) refl

      split : (frame : Option Opaque) → (deframer.pop_frame s.deframer).0 ≡ frame → Round s
      split (some m) e = popped m d λ fuel. rw (next_frame, e) refl
      split none e = read_split (deframer.read s.outbound.bytes d).0 e refl

  -- Where a deframer that reads from no bytes reads none, the loop that takes a message from a
  -- stream does not run out of two rounds, and with more fuel it gives the same result and stream.
  pub next_frame_terminates :
      IsDeframing deframer
      → (fuel : ℕ) (s : MemoryStream D)
      → ((next_frame deframer 2 s).0 ≢ err out_of_fuel)
        × (next_frame deframer (suc (suc fuel)) s ≡ next_frame deframer 2 s)
  next_frame_terminates law fuel s = elim (round s) [
    | popped m d run ↦ (λ k. cc (run 1), run (suc fuel) ∙ sym (run 1))
    | nothing s' _ run ↦ (λ k. cc (run 1), run (suc fuel) ∙ sym (run 1))
    | broken e s' _ run ↦ (λ k. cc (run 1), run (suc fuel) ∙ sym (run 1))
    | again v d d' _ _ run ↦ elim (round (record s { outbound = new_channel; deframer = d' })) [
      | popped m q next ↦
          (λ k. cc (run 1, next 0), run (suc fuel) ∙ next fuel ∙ sym (next 0) ∙ sym (run 1))
      | nothing q _ next ↦
          (λ k. cc (run 1, next 0), run (suc fuel) ∙ next fuel ∙ sym (next 0) ∙ sym (run 1))
      | broken e q _ next ↦
          (λ k. cc (run 1, next 0), run (suc fuel) ∙ next fuel ∙ sym (next 0) ∙ sym (run 1))
      | again w q q' read_none not_zero next ↦
          absurd (false_ne (law.at_empty q w (ap (λ out. out.0) read_none)) not_zero)
    ]
  ]
    where
      false_ne : {w : ℕ} → w ≡ 0 → (w == 0) ≡ false → ⊥
      false_ne e k = ground arith

-- A read that takes some bytes of a slice does the same with these bytes alone.
pub record IsReading {D Opaque : Type 0} (deframer : ProtocolMessageDeframer D Opaque)
    : Type 0 where
  pub at_prefix :
      (d d' : D) (bytes : List ℕ) (v : ℕ)
      → deframer.read bytes d ≡ (ok v, d')
      → deframer.read (take v bytes) d ≡ (ok v, d')

module _ {D Opaque : Type 0} (deframer : ProtocolMessageDeframer D Opaque) where
  -- The stream with only some of the bytes that its agent has written.
  abbrev pub keep_written : ℕ → MemoryStream D → MemoryStream D
  keep_written v s = record s {
    outbound = record { position = v; bytes = take v s.outbound.bytes };
  }

  -- A round that reads, in terms of what the deframer gives.
  abbrev after_read : ℕ → ℕ → D → MemoryStream D → Result Stop (Option Opaque) × MemoryStream D
  after_read fuel v d' s =
      let s' : MemoryStream D = record s { outbound = new_channel; deframer = d' } in
      if v == 0 then (ok none, s') else next_frame deframer fuel s'

  next_frame-read :
      (fuel v : ℕ) (s : MemoryStream D) (d' : D)
      → (deframer.pop_frame s.deframer).0 ≡ none
      → deframer.read s.outbound.bytes (deframer.pop_frame s.deframer).1 ≡ (ok v, d')
      → next_frame deframer (suc fuel) s ≡ after_read fuel v d' s
  unfolding next_frame
  next_frame-read fuel v s d' e r = simp (next_frame, e, r) refl

  -- A cleared channel stays clear.
  next_frame-cleared :
      (fuel : ℕ) (s : MemoryStream D)
      → s.outbound ≡ new_channel
      → (next_frame deframer fuel s).1.outbound ≡ new_channel
  unfolding next_frame
  next_frame-cleared zero s clear = clear
  next_frame-cleared (suc fuel) s clear = elim (round deframer s) [
    | popped m d run ↦ outbound_of (run fuel) ∙ clear
    | nothing s' keeps run ↦ outbound_of (run fuel) ∙ keeps clear
    | broken e s' keeps run ↦ outbound_of (run fuel) ∙ keeps clear
    | again v d d' _ _ run ↦
        outbound_of (run fuel)
        ∙ next_frame-cleared fuel (record s { outbound = new_channel; deframer = d' }) refl
  ]
    where
      outbound_of :
          {a b : Result Stop (Option Opaque) × MemoryStream D} → a ≡ b → a.1.outbound ≡ b.1.outbound
      outbound_of e = ap (λ out. out.1.outbound) e

  after_read-cleared :
      (fuel v : ℕ) (d' : D) (s : MemoryStream D) → (after_read fuel v d' s).1.outbound ≡ new_channel
  after_read-cleared fuel v d' s = elim (Bool-cases (v == 0)) [
    | inl none_read ↦ rw none_read refl
    | inr some_read ↦
        rw some_read
          (next_frame-cleared fuel (record s { outbound = new_channel; deframer = d' }) refl)
  ]

  take_message-outbound :
      {Msg : Type 0} (try_into : Opaque → Option Msg) (fuel : ℕ) (s : MemoryStream D)
      → (take_message deframer try_into fuel s).1 ≡ (next_frame deframer fuel s).1
  unfolding take_message
  take_message-outbound try_into fuel s = split (next_frame deframer fuel s).0 refl
    where
      split :
          (r : Result Stop (Option Opaque))
          → (next_frame deframer fuel s).0 ≡ r
          → (take_message deframer try_into fuel s).1 ≡ (next_frame deframer fuel s).1
      split (ok (some m)) e = rw (take_message, e) refl
      split (ok none) e = rw (take_message, e) refl
      split (err x) e = rw (take_message, e) refl

  -- What is made of the frame that the loop gives.
  abbrev message_of :
      {Msg : Type 0}
      → (Opaque → Option Msg)
      → Result Stop (Option Opaque) × MemoryStream D
      → Result Stop (Option (MessageResult Msg Opaque)) × MemoryStream D
  message_of try_into out = elim out.0 [
    | ok (some opaque) ↦
        (ok (some (record { message = try_into opaque; opaque_message = opaque })), out.1)
    | ok none ↦ (ok none, out.1)
    | err e ↦ (err e, out.1)
  ]

  take_message-next_frame :
      {Msg : Type 0} (try_into : Opaque → Option Msg) (fuel : ℕ) (s t : MemoryStream D)
      → next_frame deframer fuel s ≡ next_frame deframer fuel t
      → take_message deframer try_into fuel s ≡ take_message deframer try_into fuel t
  unfolding take_message
  take_message-next_frame try_into fuel s t e = ap (message_of try_into) e

  -- If a deframer that takes some bytes of a slice does the same with these bytes alone, has no
  -- frame, and takes v bytes of the outbound channel of its stream, then taking a message gives the
  -- same result and stream as if only the first v bytes had been written, and leaves the channel
  -- empty: all later bytes are lost.
  pub take_message_loses :
      {Msg : Type 0} (try_into : Opaque → Option Msg)
      → IsReading deframer
      → (fuel v : ℕ) (s : MemoryStream D) (d' : D) → (deframer.pop_frame s.deframer).0 ≡ none
      → deframer.read s.outbound.bytes (deframer.pop_frame s.deframer).1 ≡ (ok v, d')
      → (take_message deframer try_into (suc fuel) s
          ≡ take_message deframer try_into (suc fuel) (keep_written v s))
        × ((take_message deframer try_into (suc fuel) s).1.outbound ≡ new_channel)
  take_message_loses try_into law fuel v s d' e r =
      let d = (deframer.pop_frame s.deframer).1 in
      let run = next_frame-read fuel v s d' e r in
      let kept =
        next_frame-read fuel v (keep_written v s) d' e (law.at_prefix d d' s.outbound.bytes v r) in
      (
        take_message-next_frame try_into (suc fuel) s (keep_written v s) (run ∙ sym kept),
        ap (λ (x : MemoryStream D). x.outbound) (take_message-outbound try_into (suc fuel) s)
            ∙ ap (λ out. out.1.outbound) run
            ∙ after_read-cleared fuel v d' s,
      )
