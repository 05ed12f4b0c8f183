-- ===== src/Codec/Numbers.antt =====
-- puffin/src/codec.rs: the trait `Codec`, and the numbers in big-endian order. A u24 is its number.
use tlspuffin.Base.{
  ℕ, zero, suc, ◌+◌, ◌*◌, ◌/◌, ◌%◌, ◌<◌, ◌≡◌, refl, ap, ◌∙◌, List, [], ◌∷◌, ◌++◌, length, drop,
  Option, none, some, ◌==◌, if◌then◌else◌, arith, length-append,
}
use tlspuffin.Codec.Reader.{Read, ◌>>=◌, or_none, take_bytes, init}

pub record Codec (T : Type 0) : Type 0 where
  pub encode : T → List ℕ → List ℕ
  pub read : Read T

module _ {T : Type 0} (c : Codec T) where
  unfoldable pub get_encoding : T → List ℕ
  get_encoding x = c.encode x []

  unfoldable pub read_bytes : List ℕ → Option T
  unfolding init
  read_bytes bytes = (c.read (init bytes)).0

-- `to_be_bytes` and `from_be_bytes` of a number of `n` bytes.
abbrev pub to_be_bytes : ℕ → ℕ → List ℕ
to_be_bytes zero v = []
to_be_bytes (suc n) v = to_be_bytes n (v / 256) ++ v % 256 ∷ []

abbrev pub from_be_bytes_after : ℕ → List ℕ → ℕ
from_be_bytes_after v [] = v
from_be_bytes_after v (b ∷ bs) = from_be_bytes_after (v * 256 + b) bs

abbrev pub from_be_bytes : List ℕ → ℕ
from_be_bytes bs = from_be_bytes_after 0 bs

-- `try_into` an array of `n` bytes, and its number.
unfoldable pub decode : ℕ → List ℕ → Option ℕ
decode n bytes = if length bytes == n then some (from_be_bytes bytes) else none

unfoldable pub read_number : ℕ → Read ℕ
unfolding decode take_bytes
read_number n = do bytes ← take_bytes n; or_none (decode n bytes)

unfoldable pub u8_codec : Codec ℕ
unfolding read_number
u8_codec = record { encode = λ v bytes. bytes ++ v ∷ []; read = read_number 1 }

unfoldable pub u16_codec : Codec ℕ
unfolding read_number
u16_codec = record { encode = λ v bytes. bytes ++ to_be_bytes 2 v; read = read_number 2 }

-- The encoding drops the first of the four bytes of the u32 below.
unfoldable pub u24_codec : Codec ℕ
unfolding read_number
u24_codec = record { encode = λ v bytes. bytes ++ drop 1 (to_be_bytes 4 v); read = read_number 3 }

unfoldable pub u32_codec : Codec ℕ
unfolding read_number
u32_codec = record { encode = λ v bytes. bytes ++ to_be_bytes 4 v; read = read_number 4 }

unfoldable pub u64_codec : Codec ℕ
unfolding read_number
u64_codec = record { encode = λ v bytes. bytes ++ to_be_bytes 8 v; read = read_number 8 }

-- One more than the largest number of `n` bytes.
abbrev pub bound : ℕ → ℕ
bound zero = 1
bound (suc n) = 256 * bound n

pub length-to_be_bytes : (n v : ℕ) → length (to_be_bytes n v) ≡ n
length-to_be_bytes zero v = refl
length-to_be_bytes (suc n) v =
    length-append (to_be_bytes n (v / 256)) (v % 256 ∷ [])
    ∙ ap (λ k. k + 1) (length-to_be_bytes n (v / 256))
    ∙ omega arith

from_be_bytes_after-append :
    (v b : ℕ) (bs : List ℕ)
    → from_be_bytes_after v (bs ++ b ∷ []) ≡ from_be_bytes_after v bs * 256 + b
from_be_bytes_after-append v b [] = refl
from_be_bytes_after-append v b (c ∷ bs) = from_be_bytes_after-append (v * 256 + c) b bs

pub from_be_bytes-to_be_bytes : (n v : ℕ) → v < bound n → from_be_bytes (to_be_bytes n v) ≡ v
from_be_bytes-to_be_bytes zero v h = omega arith
from_be_bytes-to_be_bytes (suc n) v h =
    let small : v / 256 < bound n = omega arith in
    from_be_bytes_after-append 0 (v % 256) (to_be_bytes n (v / 256))
    ∙ ap (λ k. k * 256 + v % 256) (from_be_bytes-to_be_bytes n (v / 256) small)
    ∙ omega arith
