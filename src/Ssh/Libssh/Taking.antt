-- ===== src/Ssh/Libssh/Taking.antt =====
-- sshpuffin/src/libssh/mod.rs, `take_message_from_outbound`: its loop.
use tlspuffin.Base.{
  ℕ, suc, ◌-◌, ◌≤◌, ◌≡◌, ◌≢◌, refl, sym, ◌∙◌, ap, subst, Bool, false, List, [], ◌∷◌, ◌++◌, length,
  Option, none, some, Result, ok, err, ◌==◌, if◌then◌else◌, Bool-cases, inl, inr, arith,
  length-append, All,
}
use tlspuffin.Trace.Evaluation.{io}
use tlspuffin.Execution.Monad.{Stop, raised, out_of_fuel}
use tlspuffin.Stream.Defs.{IoError, would_block, failed}
use tlspuffin.Ssh.Packets.{RawSshMessage}
use tlspuffin.Ssh.WireLaws.{IsByte}
use tlspuffin.Ssh.Deframer.{SshMessageDeframer, max_wire_size, read_wire}
use tlspuffin.Ssh.BufferLaws.{pending, pop-waiting, pop-empty, no_pending}
use tlspuffin.Ssh.DeframerLaws.{Deframed, wire}
use tlspuffin.Ssh.Lossless.{IsDeframer, read_wire-Deframed}
use tlspuffin.Ssh.Libssh.Session.{Session}
use tlspuffin.Ssh.Libssh.Put.{LibSsl, next_wire}

-- A read gives bytes, no more than there is room for.
pub record IsSocket {W Msg : Type 0} (session : Session W Msg) : Type 0 where
  pub at_receive :
      (n : ℕ) (w : W) (bytes : List ℕ)
      → (session.receive n w).0 ≡ ok bytes
      → (length bytes ≤ n) × All IsByte bytes

-- The buffer has its size and no byte is left in it, as after every read.
pub record IsReady {W : Type 0} (p : LibSsl W) : Type 0 where
  pub valid : IsDeframer p.deframer
  pub none_used : p.deframer.used_bytes ≡ 0

-- A frame that was read waits.
pub Waits : SshMessageDeframer → Type 0
Waits d = (m : RawSshMessage) × (ms : List RawSshMessage) × (d.frames ≡ m ∷ ms)

read_wire-Waits :
    (d : SshMessageDeframer) (bytes : List ℕ)
    → IsDeframer d
    → d.used_bytes ≡ 0
    → d.frames ≡ []
    → (length bytes ≤ max_wire_size - d.used_bytes) × All IsByte bytes
    → (length bytes == 0) ≡ false
    → Waits (read_wire {E = IoError} (ok bytes) d).1
unfolding Waits
read_wire-Waits d bytes valid unused none_waits (fits, small) some_read =
    by_frames done.new_frames done.lossless
      (done.frames_added ∙ ap (λ fs. fs ++ done.new_frames) none_waits)
  where
    done : Deframed (pending d ++ bytes) d (read_wire {E = IoError} (ok bytes) d).1
    done =
        (read_wire-Deframed {E = IoError} d bytes valid fits
          (subst (All IsByte) (sym (no_pending d unused)) tt) small).1

    by_frames :
        (fs : List RawSshMessage)
        → wire fs ≡ pending d ++ bytes
        → (read_wire {E = IoError} (ok bytes) d).1.frames ≡ fs
        → Waits (read_wire {E = IoError} (ok bytes) d).1
    by_frames [] e added =
        let none_read : 0 ≡ length bytes =
          omega (arith, ap length e, length-append (pending d) bytes) in
        absurd (not_zero (sym none_read) some_read)
      where
        not_zero : {n : ℕ} → n ≡ 0 → (n == 0) ≡ false → ⊥
        not_zero e k = ground arith
    by_frames (m ∷ ms) e added = (m, ms, added)

module _ {W Msg : Type 0} (session : Session W Msg) where
  pub next_wire-waiting :
      (fuel : ℕ) (p : LibSsl W) (m : RawSshMessage) (ms : List RawSshMessage)
      → p.deframer.frames ≡ m ∷ ms
      → next_wire session (suc fuel) p
        ≡ (ok (some m), record p { deframer = record p.deframer { frames = ms } })
  unfolding next_wire
  next_wire-waiting fuel p m ms e = simp (next_wire, pop-waiting p.deframer m ms e) refl

  abbrev pub received : LibSsl W → Result IoError (List ℕ) × W
  received p = session.receive (max_wire_size - p.deframer.used_bytes) p.world

  abbrev pub after_read : LibSsl W → List ℕ → LibSsl W
  after_read p bytes = record p {
    world = (received p).1;
    deframer = (read_wire {E = IoError} (ok bytes) p.deframer).1;
  }

  abbrev pub chosen : ℕ → LibSsl W → List ℕ → Bool → Result Stop (Option RawSshMessage) × LibSsl W
  chosen fuel p bytes none_read =
      if none_read
      then (ok none, after_read p bytes)
      else next_wire session fuel (after_read p bytes)

  pub next_wire-read :
      (fuel : ℕ) (p : LibSsl W) (bytes : List ℕ)
      → p.deframer.frames ≡ []
      → (received p).0 ≡ ok bytes
      → next_wire session (suc fuel) p ≡ chosen fuel p bytes (length bytes == 0)
  unfolding next_wire read_wire
  next_wire-read fuel p bytes e r = simp (next_wire, pop-empty p.deframer e, r) refl

  pub next_wire-failed :
      (fuel : ℕ) (p : LibSsl W) (e : IoError)
      → p.deframer.frames ≡ []
      → (received p).0 ≡ err e
      → next_wire session (suc fuel) p ≡ (
        elim e [ would_block ↦ ok none | failed text ↦ err (raised (io text)) ],
        record p { world = (received p).1 },
      )
  unfolding next_wire read_wire
  next_wire-failed fuel p would_block e r = simp (next_wire, pop-empty p.deframer e, r) refl
  next_wire-failed fuel p (failed text) e r = simp (next_wire, pop-empty p.deframer e, r) refl

  -- What a round of the loop can come to.
  data Round (p : LibSsl W) : Type 0 where
    ends :
        (result : Result Stop (Option RawSshMessage)) (p' : LibSsl W)
        → result ≢ err out_of_fuel
        → ((fuel : ℕ) → next_wire session (suc fuel) p ≡ (result, p'))
        → Round p
    reads :
        (p' : LibSsl W)
        → Waits p'.deframer
        → ((fuel : ℕ) → next_wire session (suc fuel) p ≡ next_wire session fuel p')
        → Round p

  round : IsSocket session → (p : LibSsl W) → IsReady p → Round p
  round socket p ready = by_frames p.deframer.frames refl
    where
      by_result :
          (result : Result IoError (List ℕ))
          → p.deframer.frames ≡ []
          → (received p).0 ≡ result
          → Round p
      by_result (ok bytes) e r = elim (Bool-cases (length bytes == 0)) [
        | inl none_read ↦
            ends (ok none) (after_read p bytes) (λ k. cc)
              λ fuel. next_wire-read fuel p bytes e r ∙ ap (chosen fuel p bytes) none_read
        | inr some_read ↦
            reads (after_read p bytes)
              (read_wire-Waits p.deframer bytes ready.valid ready.none_used e
                (socket.at_receive (max_wire_size - p.deframer.used_bytes) p.world bytes r)
                some_read)
              λ fuel. next_wire-read fuel p bytes e r ∙ ap (chosen fuel p bytes) some_read
      ]
      by_result (err would_block) e r =
          ends (ok none) (record p { world = (received p).1 }) (λ k. cc)
            λ fuel. next_wire-failed fuel p would_block e r
      by_result (err (failed text)) e r =
          ends (err (raised (io text))) (record p { world = (received p).1 }) (λ k. cc)
            λ fuel. next_wire-failed fuel p (failed text) e r

      by_frames : (fs : List RawSshMessage) → p.deframer.frames ≡ fs → Round p
      by_frames [] e = by_result (received p).0 e refl
      by_frames (m ∷ ms) e =
          ends (ok (some m)) (record p { deframer = record p.deframer { frames = ms } }) (λ k. cc)
            λ fuel. next_wire-waiting fuel p m ms e

  -- If a read from the socket gives bytes, no more than there is room for, and the deframer has no
  -- byte in its buffer, the loop that takes a message from the socket does not run out of two
  -- rounds, and with more fuel it gives the same result and state.
  pub next_wire_terminates :
      IsSocket session
      → (fuel : ℕ) (p : LibSsl W) → IsReady p
      → ((next_wire session 2 p).0 ≢ err out_of_fuel)
        × (next_wire session (suc (suc fuel)) p ≡ next_wire session 2 p)
  unfolding Waits
  next_wire_terminates socket fuel p ready = elim (round socket p ready) [
    | ends result p' not_out run ↦
        (λ k. not_out (sym (ap (λ out. out.0) (run 1)) ∙ k), run (suc fuel) ∙ sym (run 1))
    | reads p' (m, ms, waits) run ↦
        let next = λ (n : ℕ). next_wire-waiting n p' m ms waits in
        (λ k. cc (run 1, next 0), run (suc fuel) ∙ next fuel ∙ sym (next 0) ∙ sym (run 1))
  ]
