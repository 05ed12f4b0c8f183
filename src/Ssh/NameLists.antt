-- ===== src/Ssh/NameLists.antt =====
-- sshpuffin/src/ssh/message.rs: the lists of names. A string is its UTF-8 bytes, and whether bytes are
-- UTF-8 is a parameter. The types that `declare_name_list!` declares wrap a name list, and are that
-- name list here.
use tlspuffin.Base.{
  ℕ, ◌%◌, ◌^◌, ◌<◌, ◌≡◌, ◌≢◌, refl, sym, ap, ◌∙◌, subst, Bool, true, false, List, [], ◌∷◌, ◌++◌,
  length, none, some, ltb, ◌==◌, if◌then◌else◌, arith, append_assoc, append-nil, length-append, All,
}
use tlspuffin.Codec.Reader.{Read, ◌>>=◌, pure, or_none, take_bytes}
use tlspuffin.Codec.Numbers.{Codec, get_encoding, u32_codec, to_be_bytes, bound}
use tlspuffin.Codec.Reads.{
  Reads, Reads->>=, Reads-last, Reads-pure, take_bytes-Reads, read_number-Reads,
}
use tlspuffin.Codec.Laws.{IsLawful}

-- The byte of a comma.
abbrev pub comma : ℕ
comma = 44

abbrev pub NameList : Type 0
NameList = List (List ℕ)

unfoldable pub empty : NameList
empty = []

-- `join(",")`.
abbrev pub join : NameList → List ℕ
join [] = []
join (x ∷ []) = x
join (x ∷ y ∷ names) = x ++ comma ∷ join (y ∷ names)

abbrev pub push_first : ℕ → NameList → NameList
push_first b [] = (b ∷ []) ∷ []
push_first b (x ∷ names) = (b ∷ x) ∷ names

-- `split(",")`: at least one name, also of no bytes.
abbrev pub split : List ℕ → NameList
split [] = [] ∷ []
split (b ∷ bytes) = let names = split bytes in if b == comma then [] ∷ names else push_first b names

module _ (is_utf8 : List ℕ → Bool) where
  -- The names of a length that was read before.
  unfoldable pub read_names : ℕ → Read NameList
  unfolding take_bytes
  read_names len =
      if ltb 0 len
      then (do bytes ← take_bytes len; or_none (if is_utf8 bytes then some (split bytes) else none))
      else pure []

  unfoldable pub name_list_codec : Codec NameList
  unfolding u32_codec read_names
  name_list_codec = record {
    encode = λ names bytes. u32_codec.encode (length (join names) % 2 ^ 32) bytes ++ join names;
    read = (do len ← u32_codec.read; read_names len);
  }

  -- A name list that its encoding keeps: no name has a comma, it is not one empty name, and it is not
  -- too long.
  pub record IsNameList (names : NameList) : Type 0 where
    pub no_comma : All (λ name. All (λ b. b ≢ comma) name) names
    pub not_one_empty : names ≢ [] ∷ []
    pub is_string : is_utf8 (join names) ≡ true
    pub short : length (join names) < bound 4

split-plain :
    (x rest : List ℕ) (y : List ℕ) (names : NameList)
    → All (λ b. b ≢ comma) x
    → split rest ≡ y ∷ names
    → split (x ++ rest) ≡ (x ++ y) ∷ names
split-plain [] rest y names plain e = e
split-plain (b ∷ x) rest y names plain e =
    let other : (b == comma) ≡ false = ground (arith, plain.0) in
    rw other (ap (push_first b) (split-plain x rest y names plain.1 e))

pub split-join :
    (names : NameList)
    → All (λ name. All (λ b. b ≢ comma) name) names
    → names ≢ []
    → split (join names) ≡ names
split-join [] plain some_name = absurd (some_name refl)
split-join (x ∷ []) plain some_name =
    ap split (sym (append-nil x))
    ∙ split-plain x [] [] [] plain.0 refl
    ∙ ap (λ y. y ∷ []) (append-nil x)
split-join (x ∷ y ∷ names) plain some_name =
    split-plain x (comma ∷ join (y ∷ names)) [] (y ∷ names) plain.0
      (ap (λ ns. [] ∷ ns) (split-join (y ∷ names) plain.1 (λ e. cc)))
    ∙ ap (λ z. z ∷ y ∷ names) (append-nil x)

join-some : (names : NameList) → names ≢ [] → names ≢ [] ∷ [] → 0 < length (join names)
join-some [] some_name not_empty = absurd (some_name refl)
join-some ([] ∷ []) some_name not_empty = absurd (not_empty refl)
join-some ((b ∷ x) ∷ []) some_name not_empty = omega arith
join-some (x ∷ y ∷ names) some_name not_empty =
    omega (arith, length-append x (comma ∷ join (y ∷ names)))

module _ (is_utf8 : List ℕ → Bool) where
  read_names-Reads :
      (names : NameList)
      → IsNameList is_utf8 names
      → Reads (read_names is_utf8 (length (join names))) names (join names)
  unfolding read_names
  read_names-Reads [] h = Reads-pure []
  read_names-Reads (x ∷ names) h =
      let some_byte = join-some (x ∷ names) (λ e. cc) h.not_one_empty in
      let long : ltb 0 (length (join (x ∷ names))) ≡ true = ground arith in
      rw long (
        Reads-last (λ bytes. or_none (if is_utf8 bytes then some (split bytes) else none))
          (take_bytes-Reads (join (x ∷ names)))
          (λ r.
            rw h.is_string (ap (λ ns. (some ns, r)) (split-join (x ∷ names) h.no_comma (λ e. cc)))))

  -- The codec of name lists is lawful for lists that are not one empty name, whose names have no
  -- comma and which are short and UTF-8 when joined.
  pub name_list_codec-IsLawful : IsLawful (name_list_codec is_utf8) (IsNameList is_utf8)
  unfolding name_list_codec get_encoding u32_codec
  name_list_codec-IsLawful = record {
    encode-append = λ names bytes.
        append_assoc bytes (to_be_bytes 4 (length (join names) % 2 ^ 32)) (join names);
    encode-Reads = λ names h.
        let whole : length (join names) % 2 ^ 32 ≡ length (join names) = omega (arith, h.short) in
        subst (λ n. Reads (name_list_codec is_utf8).read names (to_be_bytes 4 n ++ join names))
          (sym whole)
          (Reads->>= _ (read_number-Reads 4 (length (join names)) h.short)
            (read_names-Reads names h));
  }
