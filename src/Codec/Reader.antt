-- ===== src/Codec/Reader.antt =====
-- puffin/src/codec.rs: the reader of a slice of bytes. What reads from it takes the reader and gives
-- the result with the reader that is left, which has moved on also when a later part fails.
use tlspuffin.Base.{
  ℕ, ◌+◌, ◌-◌, Bool, List, length, take, drop, Option, none, some, ltb, if◌then◌else◌, and_then,
}

-- A byte is a number below 256.
pub record Reader : Type 0 where
  pub buf : List ℕ
  pub offs : ℕ

abbrev pub Read : Type 0 → Type 0
Read A = Reader → Option A × Reader

-- `?` on the result of a read.
infixl 5 ◌>>=◌ ◌>>◌
unfoldable pub ◌>>=◌ : {A B : Type 0} → Read A → (A → Read B) → Read B
◌>>=◌ m f r = let (o, r') = m r in elim o [ none ↦ (none, r') | some a ↦ f a r' ]

unfoldable pub ◌>>◌ : {A B : Type 0} → Read A → Read B → Read B
unfolding ◌>>=◌
m >> k = m >>= λ _. k

abbrev pub pure : {A : Type 0} → A → Read A
pure a r = (some a, r)

-- The rest depends on a value that may be missing.
abbrev pub or_none : {A : Type 0} → Option A → Read A
or_none o r = (o, r)

unfoldable pub init : List ℕ → Reader
init bytes = record { buf = bytes; offs = 0 }

unfoldable pub left : Reader → ℕ
left r = length r.buf - r.offs

unfoldable pub any_left : Reader → Bool
any_left r = ltb r.offs (length r.buf)

unfoldable pub used : Reader → ℕ
used r = r.offs

unfoldable pub rest : Reader → List ℕ × Reader
rest r = (drop r.offs r.buf, record r { offs = length r.buf })

unfoldable pub take_bytes : ℕ → Read (List ℕ)
unfolding left
take_bytes len r =
    if ltb (left r) len
    then (none, r)
    else (some (take len (drop r.offs r.buf)), record r { offs = r.offs + len })

unfoldable pub peek : ℕ → Reader → Option (List ℕ)
unfolding left
peek len r = if ltb (left r) len then none else some (take len (drop r.offs r.buf))

unfoldable pub sub : ℕ → Read Reader
unfolding take_bytes init
sub len r = let (bytes, r') = take_bytes len r in (and_then bytes (λ b. some (init b)), r')
