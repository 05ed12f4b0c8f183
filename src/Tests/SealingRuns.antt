-- ===== src/Tests/SealingRuns.antt =====
-- The theorems on encryption at small ciphers.
use tlspuffin.Base.{
  ◌==◌, if◌then◌else◌, Option, sym, ◌∙◌, ℕ, ◌+◌, ◌≡◌, refl, ap, true, false, List, [], ◌∷◌, length,
  some, none, ok, arith,
}
use tlspuffin.Tls.KeySchedule.{Rustls}
use tlspuffin.Tls.Sealing.{
  Ciphers, fn_encrypt_handshake, fn_decrypt_handshake, fn_encrypt_application,
  fn_decrypt_application,
}
use tlspuffin.Tls.SealingLaws.{
  IsCiphers, fn_decrypt_handshake-fn_encrypt_handshake,
  fn_decrypt_application-fn_encrypt_application,
}

-- Keys are numbers: that of the client is one less than that of the server.
abbrev counting : Rustls
counting = record {
  Group = ℕ;
  KxGroup = ℕ;
  PrivateKey = ℕ;
  Suite = ℕ;
  Tls13Suite = ℕ;
  Algorithm = ℕ;
  Pre = ℕ;
  HandshakeStart = ℕ;
  Handshake = ℕ;
  Pending = ℕ;
  Traffic = ℕ;
  Prk = ℕ;
  HandshakeHash = List ℕ;
  choose = λ g. some g;
  find_group = λ g. some g;
  generate = λ g. some (g + 42);
  compute_public_key = λ k. some (k ∷ []);
  complete = λ g k own theirs. some (k ∷ theirs);
  suite = 4865;
  tls13 = λ s. some s;
  hkdf_algorithm = λ s. s;
  output_len = λ a. 32;
  early_into_pre = λ a psk. length psk;
  new_pre = λ a. 7;
  into_handshake = λ pre secret. pre + length secret;
  get_current_hash_raw = λ h. h;
  derive_handshake_secrets =
      λ start hash random. (start, start + length hash, start + length hash + 1);
  into_traffic_with_client_finished_pending_raw =
      λ hs hash random. (hs, hs + length hash + 10, hs + length hash + 11);
  sign_client_finish_raw = λ pending hash. (pending, hash, pending);
  sign_server_finish_raw = λ hs hash. hs ∷ hash;
  derive_ticket_psk_raw = λ traffic hash nonce. traffic ∷ nonce;
}

abbrev untag : ℕ → List ℕ → Option (ℕ × List ℕ)
untag tag [] = none
untag tag (x ∷ xs) = if x == tag then some (772, xs) else none

untagged : (tag : ℕ) (xs : List ℕ) → untag tag (tag ∷ xs) ≡ some (772, xs)
untagged tag xs = let same : (tag == tag) ≡ true = ground arith in rw same refl

-- A message is its version and its payload. A cipher puts the sum of its key and the number of the message in
-- front of the payload, and accepts nothing else there.
abbrev tagging : Ciphers counting
tagging = record {
  Message = ℕ × List ℕ;
  PlainMessage = ℕ × List ℕ;
  OpaqueMessage = ℕ × List ℕ;
  to_plain = λ m. m;
  into_unencrypted_opaque = λ p. p;
  message_from = λ p. some p;
  payload = λ p. p.1;
  with_tls13 = λ p. (772, p.1);
  encrypt = λ s k p n. some (771, (k + n) ∷ p.1);
  decrypt = λ s k o n. untag (k + n) o.1;
}

tagging-IsCiphers : IsCiphers tagging
tagging-IsCiphers = record {
  decrypts = λ s k m n o fits e.
      let same : (771, (k + n) ∷ m.1) ≡ o = cc in
      ap (λ (x : ℕ × List ℕ). untag (k + n) x.1) (sym same) ∙ untagged (k + n) m.1;
}

abbrev key_share : List ℕ
key_share = 1 ∷ 2 ∷ []

-- A message of TLS 1.2, and the records of TLS 1.3 that carry it.
abbrev hello : ℕ × List ℕ
hello = (771, 5 ∷ 6 ∷ [])

abbrev hello_record : ℕ × List ℕ
hello_record = (771, 14 ∷ 5 ∷ 6 ∷ [])

abbrev data_record : ℕ × List ℕ
data_record = (771, 24 ∷ 5 ∷ 6 ∷ [])

hello_sealed :
    fn_encrypt_handshake counting tagging hello (9 ∷ []) (some key_share) none 29 true 3
    ≡ ok hello_record
unfolding fn_encrypt_handshake
hello_sealed = refl

fn_decrypt_handshake-fn_encrypt_handshake_example :
    fn_decrypt_handshake counting tagging hello_record (9 ∷ []) (some key_share) none 29 false 3
    ≡ ok (772, 5 ∷ 6 ∷ [])
fn_decrypt_handshake-fn_encrypt_handshake_example =
    fn_decrypt_handshake-fn_encrypt_handshake tagging tagging-IsCiphers hello hello_record (9 ∷ [])
      (some key_share) none 29 true 3 hello_record (omega arith) hello_sealed refl

data_sealed :
    fn_encrypt_application counting tagging hello (9 ∷ []) (8 ∷ []) (some key_share) none 29 3
    ≡ ok data_record
unfolding fn_encrypt_application
data_sealed = refl

fn_decrypt_application-fn_encrypt_application_example :
    fn_decrypt_application counting tagging data_record
      (9 ∷ [])
      (8 ∷ [])
      (some key_share)
      none
      29
      false
      3
    ≡ ok (772, 5 ∷ 6 ∷ [])
fn_decrypt_application-fn_encrypt_application_example =
    fn_decrypt_application-fn_encrypt_application tagging tagging-IsCiphers hello data_record
      (9 ∷ []) (8 ∷ []) (some key_share) none 29 3 data_record (omega arith) data_sealed refl
