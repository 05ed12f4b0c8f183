-- ===== src/Ssh/BufferLaws.antt =====
-- sshpuffin/src/ssh/deframe.rs, `buf_consume` and `pop_frame`: what stays in the buffer and in the queue.
use tlspuffin.Base.{
  some, none, ℕ, zero, suc, ◌+◌, ◌-◌, ◌≤◌, ◌≡◌, refl, sym, ap, ◌∙◌, true, List, [], ◌∷◌, ◌++◌,
  length, take, drop, arith, ltb, ◌==◌, length-append, take-append, length-take_le, length-drop,
  Bool-cases, inl, inr,
}
use tlspuffin.Ssh.Packets.{RawSshMessage}
use tlspuffin.Ssh.Deframer.{SshMessageDeframer, buf_consume, pop_frame}

take-nil : (n : ℕ) → take {A = ℕ} n [] ≡ []
take-nil zero = refl
take-nil (suc n) = refl

drop-take : (m n : ℕ) (xs : List ℕ) → drop m (take n xs) ≡ take (n - m) (drop m xs)
drop-take zero n xs = ap (λ k. take k xs) (omega arith)
drop-take (suc m) zero xs =
    let none_left : 0 ≡ 0 - suc m = omega arith in ap (λ k. take k (drop (suc m) xs)) none_left
drop-take (suc m) (suc n) [] = sym (take-nil (suc n - suc m))
drop-take (suc m) (suc n) (x ∷ xs) =
    let step : n - m ≡ suc n - suc m = omega arith in
    drop-take m n xs ∙ ap (λ k. take k (drop m xs)) step

-- The bytes in use.
abbrev pub pending : SshMessageDeframer → List ℕ
pending d = take d.used_bytes d.buf

-- What consuming the bytes of a frame leaves.
pub record Consumed (taken : ℕ) (d d' : SshMessageDeframer) : Type 0 where
  pub frames_same : d'.frames ≡ d.frames
  pub desynced_same : d'.desynced ≡ d.desynced
  pub size_same : length d'.buf ≡ length d.buf
  pub used_less : d'.used_bytes ≡ d.used_bytes - taken
  pub pending_dropped : pending d' ≡ drop taken (pending d)

pub buf_consume-Consumed :
    (taken : ℕ) (d : SshMessageDeframer)
    → taken ≤ d.used_bytes
    → d.used_bytes ≤ length d.buf
    → Consumed taken d (buf_consume taken d)
unfolding buf_consume
buf_consume-Consumed taken d within fits = elim (Bool-cases (ltb taken d.used_bytes)) [
  | inl less ↦
      let rest = d.used_bytes - taken in
      let moved = take rest (drop taken d.buf) in
      let moved_size : length moved ≡ rest =
        length-take_le rest (drop taken d.buf) (omega (arith, length-drop taken d.buf)) in
      let tail = drop (0 + length moved) d.buf in
      rw (less, buf_consume)
        (record {
          frames_same = refl;
          desynced_same = refl;
          size_same =
              omega
                (arith, length-append moved tail, length-drop (0 + length moved) d.buf, moved_size);
          used_less = refl;
          pending_dropped =
              ap (λ k. take k (moved ++ tail)) (sym moved_size)
              ∙ take-append moved tail
              ∙ sym (drop-take taken d.used_bytes d.buf);
        })
  | inr other ↦
      let all : (taken == d.used_bytes) ≡ true = ground arith in
      let none_left : d.used_bytes - taken ≡ 0 = ground (arith, other) in
      rw (other, all, buf_consume)
        (record {
          frames_same = refl;
          desynced_same = refl;
          size_same = refl;
          used_less = sym none_left;
          pending_dropped =
              sym (
                drop-take taken d.used_bytes d.buf ∙ ap (λ k. take k (drop taken d.buf)) none_left);
        })
]

pub no_pending : (d : SshMessageDeframer) → d.used_bytes ≡ 0 → pending d ≡ []
no_pending d e = ap (λ n. take n d.buf) e

pub pop-waiting :
    (d : SshMessageDeframer) (m : RawSshMessage) (ms : List RawSshMessage)
    → d.frames ≡ m ∷ ms
    → pop_frame d ≡ (some m, record d { frames = ms })
unfolding pop_frame
pop-waiting d m ms e = simp (pop_frame, e) refl

pub pop-empty : (d : SshMessageDeframer) → d.frames ≡ [] → pop_frame d ≡ (none, d)
unfolding pop_frame
pop-empty d e = simp (pop_frame, e) refl
