-- ===== src/Fuzzer/Rand.antt =====
-- The random generator of LibAFL (`libafl::bolts::rands::Rand`), which the fuzzer only calls:
-- a state, the draws that the fuzzer makes, and the ranges that their documentation promises.
use tlspuffin.Base.{ℕ, ◌≤◌, ◌<◌}

pub record Rand (R : Type 0) : Type 0 where
  -- a value below the bound
  pub below : ℕ → R → ℕ × R
  -- a value between two bounds, both inclusive
  pub between : ℕ → ℕ → R → ℕ × R
  -- the index of the item that `choose` takes from a collection of that length
  pub choose_index : ℕ → R → ℕ × R
  pub below-lt : (n : ℕ) (r : R) → 0 < n → (below n r).0 < n
  pub between-ge : (lo hi : ℕ) (r : R) → lo ≤ hi → lo ≤ (between lo hi r).0
  pub between-le : (lo hi : ℕ) (r : R) → lo ≤ hi → (between lo hi r).0 ≤ hi
  pub choose_index-lt : (n : ℕ) (r : R) → 0 < n → (choose_index n r).0 < n
