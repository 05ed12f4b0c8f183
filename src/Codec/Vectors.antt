-- ===== src/Codec/Vectors.antt =====
-- puffin/src/codec.rs: vectors with a length of one, two or three bytes in front. The debug
-- assertions on the length, which a release build does not have, are left out: a length that does not
-- fit is cut to its lower bytes.
use tlspuffin.Base.{
  ℕ, zero, suc, ◌+◌, ◌-◌, List, [], ◌∷◌, ◌++◌, length, take, drop, replicate, Option, none, some,
  ltb, if◌then◌else◌,
}
use tlspuffin.Codec.Reader.{Reader, Read, ◌>>=◌, or_none, any_left, sub}
use tlspuffin.Codec.Numbers.{Codec, to_be_bytes, read_number}

-- Bytes written over those at a position.
abbrev pub write_at : ℕ → List ℕ → List ℕ → List ℕ
write_at i xs bytes = take i bytes ++ (xs ++ drop (i + length xs) bytes)

module _ {T : Type 0} (c : Codec T) where
  unfoldable pub encode_all : List T → List ℕ → List ℕ
  encode_all [] bytes = bytes
  encode_all (x ∷ xs) bytes = encode_all xs (c.encode x bytes)

  -- The length in `n` bytes is written last, over zeros.
  unfoldable pub encode_vec : ℕ → List ℕ → List T → List ℕ
  unfolding encode_all
  encode_vec n bytes items =
      let len_offset = length bytes in
      let bytes' = encode_all items (bytes ++ replicate n 0) in
      let len = length bytes' - len_offset - n in write_at len_offset (to_be_bytes n len) bytes'

  unfoldable pub encode_vec_u8 : List ℕ → List T → List ℕ
  unfolding encode_vec
  encode_vec_u8 = encode_vec 1

  unfoldable pub encode_vec_u16 : List ℕ → List T → List ℕ
  unfolding encode_vec
  encode_vec_u16 = encode_vec 2

  unfoldable pub encode_vec_u24 : List ℕ → List T → List ℕ
  unfolding encode_vec
  encode_vec_u24 = encode_vec 3

  -- The `while sub.any_left()` loop. Each item takes a byte at least, so that the number of bytes is
  -- enough fuel; without fuel and with bytes left the items do not end.
  unfoldable pub read_all : ℕ → Reader → Option (List T)
  unfolding any_left
  read_all zero r = if any_left r then none else some []
  read_all (suc fuel) r =
      if any_left r
      then (let (item, r') = c.read r in
          elim item [
            | none ↦ none
            | some x ↦ elim (read_all fuel r') [ none ↦ none | some xs ↦ some (x ∷ xs) ]
          ])
      else some []

  -- The items of a length that was read before.
  unfoldable pub read_items : ℕ → Read (List T)
  unfolding sub read_all
  read_items len = do items ← sub len; or_none (read_all (length items.buf) items)

  unfoldable pub read_vec_u8 : Read (List T)
  unfolding read_number read_items
  read_vec_u8 = do len ← read_number 1; read_items len

  unfoldable pub read_vec_u16 : Read (List T)
  unfolding read_number read_items
  read_vec_u16 = do len ← read_number 2; read_items len

  unfoldable pub read_vec_u24_limited : ℕ → Read (List T)
  unfolding read_number read_items
  read_vec_u24_limited max_bytes = do
    len ← read_number 3
    if ltb max_bytes len then or_none none else read_items len
