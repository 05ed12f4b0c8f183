-- ===== src/Ssh/Libssh/Lossless.antt =====
-- sshpuffin/src/libssh/mod.rs, `take_message_from_outbound`: what a call takes of what came over the socket.
use Prim.Native.String.{String}
use tlspuffin.Base.{
  ℕ, ◌-◌, ◌≤◌, ◌≡◌, refl, sym, ◌∙◌, ap, subst, false, Bool, List, [], ◌∷◌, ◌++◌, length, Option,
  none, some, Result, ok, err, ◌==◌, arith, All,
}
use tlspuffin.Trace.Evaluation.{io}
use tlspuffin.Execution.Monad.{Stop, raised}
use tlspuffin.Execution.Put.{MessageResult}
use tlspuffin.Stream.Defs.{IoError, would_block, failed}
use tlspuffin.Ssh.Messages.{SshMessage}
use tlspuffin.Ssh.Packets.{RawSshMessage}
use tlspuffin.Ssh.PacketLaws.{raw_encoding}
use tlspuffin.Ssh.WireLaws.{IsByte}
use tlspuffin.Ssh.Deframer.{max_wire_size}
use tlspuffin.Ssh.BufferLaws.{pending, no_pending}
use tlspuffin.Ssh.DeframerLaws.{Deframed, wire}
use tlspuffin.Ssh.Lossless.{read_wire-Deframed}
use tlspuffin.Ssh.Libssh.Session.{Session}
use tlspuffin.Ssh.Libssh.Put.{LibSsl, next_wire, take_wire, decode_message}
use tlspuffin.Ssh.Libssh.Taking.{
  IsSocket, IsReady, received, after_read, chosen, next_wire-waiting, next_wire-read,
  next_wire-failed,
}

-- The program under test after its world changed, and after a frame was taken.
module _ {W : Type 0} where
  abbrev pub with_world : W → LibSsl W → LibSsl W
  with_world world p = record p { world = world }

  abbrev pub with_frames : List RawSshMessage → LibSsl W → LibSsl W
  with_frames frames p = record p { deframer = record p.deframer { frames = frames } }

abbrev pub Taken : Type 0 → Type 0
Taken W = Result Stop (Option (MessageResult SshMessage RawSshMessage)) × LibSsl W

module _ {W Msg : Type 0} (session : Session W Msg) (is_utf8 : List ℕ → Bool) where
  abbrev pub taken : RawSshMessage → MessageResult SshMessage RawSshMessage
  taken m = record { message = decode_message is_utf8 m; opaque_message = m }

  -- What a call comes to. A frame that waits is taken first, and nothing is read. Else one read of the
  -- socket gives no bytes, or bytes that are the encodings of the message taken and of the frames that
  -- wait after the call, or an error.
  pub data Gives (p : LibSsl W) (out : Taken W) : Type 0 where
    waiting :
        (m : RawSshMessage) (ms : List RawSshMessage)
        → p.deframer.frames ≡ m ∷ ms
        → out ≡ (ok (some (taken m)), with_frames ms p)
        → Gives p out
    nothing_came :
        p.deframer.frames ≡ []
        → (received session p).0 ≡ ok []
        → out.0 ≡ ok none
        → out.1.world ≡ (received session p).1
        → out.1.deframer.frames ≡ []
        → Gives p out
    bytes_came :
        (bytes : List ℕ) (m : RawSshMessage)
        → p.deframer.frames ≡ []
        → (received session p).0 ≡ ok bytes
        → out.0 ≡ ok (some (taken m))
        → out.1.world ≡ (received session p).1
        → raw_encoding m ++ wire out.1.deframer.frames ≡ bytes
        → Gives p out
    blocked :
        p.deframer.frames ≡ []
        → (received session p).0 ≡ err would_block
        → out ≡ (ok none, with_world (received session p).1 p)
        → Gives p out
    broken :
        (text : String)
        → p.deframer.frames ≡ []
        → (received session p).0 ≡ err (failed text)
        → out ≡ (err (raised (io text)), with_world (received session p).1 p)
        → Gives p out

  -- What is made of the frame that the loop gives.
  abbrev message_of : Result Stop (Option RawSshMessage) × LibSsl W → Taken W
  message_of out = elim out.0 [
    | ok (some m) ↦ (ok (some (taken m)), out.1)
    | ok none ↦ (ok none, out.1)
    | err e ↦ (err e, out.1)
  ]

  take_wire-message_of :
      (fuel : ℕ) (p : LibSsl W)
      → take_wire session is_utf8 fuel p ≡ message_of (next_wire session fuel p)
  unfolding take_wire
  take_wire-message_of fuel p = refl

  abbrev Good : LibSsl W → Taken W → Type 0
  Good p out = IsReady out.1 × (out.1.state ≡ p.state) × Gives p out

  settle :
      (p : LibSsl W) (x : Result Stop (Option RawSshMessage) × LibSsl W)
      → next_wire session 2 p ≡ x
      → Good p (message_of x)
      → Good p (take_wire session is_utf8 2 p)
  settle p x run good = subst (Good p) (sym (take_wire-message_of 2 p ∙ ap message_of run)) good

  with_frames-IsReady :
      (ms : List RawSshMessage) (p : LibSsl W) → IsReady p → IsReady (with_frames ms p)
  with_frames-IsReady ms p ready = record {
    valid = record { sized = ready.valid.sized; within = ready.valid.within };
    none_used = ready.none_used;
  }

  -- What the bytes of a read are made into.
  read-Deframed :
      IsSocket session
      → (p : LibSsl W) (bytes : List ℕ) → IsReady p
      → (received session p).0 ≡ ok bytes
      → Deframed (pending p.deframer ++ bytes) p.deframer (after_read session p bytes).deframer
  read-Deframed socket p bytes ready r =
      let (fits, small) =
        socket.at_receive (max_wire_size - p.deframer.used_bytes) p.world bytes r in
      (read_wire-Deframed {E = IoError} p.deframer bytes ready.valid fits
        (subst (All IsByte) (sym (no_pending p.deframer ready.none_used)) tt) small).1

  after_read-IsReady :
      (p : LibSsl W) (bytes : List ℕ)
      → IsReady p
      → Deframed (pending p.deframer ++ bytes) p.deframer (after_read session p bytes).deframer
      → IsReady (after_read session p bytes)
  after_read-IsReady p bytes ready done = record {
    valid = record {
      sized = done.size_same ∙ ready.valid.sized;
      within = omega (arith, done.none_used);
    };
    none_used = done.none_used;
  }

  read_none-Good :
      IsSocket session
      → (p : LibSsl W) → IsReady p
      → p.deframer.frames ≡ []
      → (received session p).0 ≡ ok []
      → Good p (take_wire session is_utf8 2 p)
  read_none-Good socket p ready e r =
      settle p (ok none, after_read session p []) (next_wire-read session 1 p [] e r)
        (
          after_read-IsReady p [] ready done,
          refl,
          nothing_came e r refl refl (
              done.frames_added
              ∙ ap (λ fs. fs ++ done.new_frames) e
              ∙ no_frames done.new_frames none_made),
        )
    where
      done : Deframed (pending p.deframer ++ []) p.deframer (after_read session p []).deframer
      done = read-Deframed socket p [] ready r

      none_made : length done.new_frames ≤ 0
      none_made = omega (
        arith,
        done.few_frames,
        ap (λ xs. length (xs ++ [])) (no_pending p.deframer ready.none_used),
      )

      no_frames : (fs : List RawSshMessage) → length fs ≤ 0 → fs ≡ []
      no_frames [] h = refl
      no_frames (f ∷ fs) h = absurd (omega arith)

  read_some-Good :
      IsSocket session
      → (p : LibSsl W) (b : ℕ) (bs : List ℕ) → IsReady p
      → p.deframer.frames ≡ []
      → (received session p).0 ≡ ok (b ∷ bs)
      → Good p (take_wire session is_utf8 2 p)
  read_some-Good socket p b bs ready e r =
      by_frames done.new_frames (done.frames_added ∙ ap (λ fs. fs ++ done.new_frames) e)
        (done.lossless ∙ ap (λ xs. xs ++ b ∷ bs) (no_pending p.deframer ready.none_used))
    where
      a : LibSsl W
      a = after_read session p (b ∷ bs)

      done : Deframed (pending p.deframer ++ b ∷ bs) p.deframer a.deframer
      done = read-Deframed socket p (b ∷ bs) ready r

      some_read : (length (b ∷ bs) == 0) ≡ false
      some_read = ground arith

      by_frames :
          (fs : List RawSshMessage)
          → a.deframer.frames ≡ fs
          → wire fs ≡ b ∷ bs
          → Good p (take_wire session is_utf8 2 p)
      by_frames [] added made = cc (made)
      by_frames (m ∷ ms) added made =
          settle p (ok (some m), with_frames ms a)
            (next_wire-read session 1 p (b ∷ bs) e r
              ∙ ap (chosen session 1 p (b ∷ bs)) some_read
              ∙ next_wire-waiting session 0 a m ms added)
            (
              with_frames-IsReady ms a (after_read-IsReady p (b ∷ bs) ready done),
              refl,
              bytes_came (b ∷ bs) m e r refl refl made,
            )

  -- If a read from the socket gives bytes, no more than there is room for, and the buffer of the
  -- deframer has its size and no byte in it, then a call that takes a message leaves the buffer so
  -- and the state as it was, and comes to one of five ends: a frame that waits is taken from the
  -- front, and nothing is read; or none waits and the socket is read once, which gives no bytes,
  -- and no message is taken and no frame waits; or it gives bytes, and they are the encoding of the
  -- message that is taken and then of the frames that wait; or it would block, and no message is
  -- taken; or it fails, and the call fails with that error; in the last two the deframer is as it
  -- was.
  pub take_wire-Gives :
      IsSocket session
      → (p : LibSsl W) → IsReady p
      → let out = take_wire session is_utf8 2 p in
        IsReady out.1 × (out.1.state ≡ p.state) × Gives p out
  take_wire-Gives socket p ready = by_frames p.deframer.frames refl
    where
      kept : (world : W) → IsReady (with_world world p)
      kept world = record { valid = ready.valid; none_used = ready.none_used }

      by_result :
          (result : Result IoError (List ℕ))
          → p.deframer.frames ≡ []
          → (received session p).0 ≡ result
          → Good p (take_wire session is_utf8 2 p)
      by_result (ok []) e r = read_none-Good socket p ready e r
      by_result (ok (b ∷ bs)) e r = read_some-Good socket p b bs ready e r
      by_result (err would_block) e r =
          settle p (ok none, with_world (received session p).1 p)
            (next_wire-failed session 1 p would_block e r)
            (kept (received session p).1, refl, blocked e r refl)
      by_result (err (failed text)) e r =
          settle p (err (raised (io text)), with_world (received session p).1 p)
            (next_wire-failed session 1 p (failed text) e r)
            (kept (received session p).1, refl, broken text e r refl)

      by_frames :
          (fs : List RawSshMessage)
          → p.deframer.frames ≡ fs
          → Good p (take_wire session is_utf8 2 p)
      by_frames [] e = by_result (received session p).0 e refl
      by_frames (m ∷ ms) e =
          settle p (ok (some m), with_frames ms p) (next_wire-waiting session 1 p m ms e)
            (with_frames-IsReady ms p ready, refl, waiting m ms e refl)
