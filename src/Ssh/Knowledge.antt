-- ===== src/Ssh/Knowledge.antt =====
-- sshpuffin/src/ssh/message.rs: what a message gives to the knowledge of the attacker; and fn_message.rs: the
-- function symbols that make messages. The boxing of values is a parameter, and a wrapper of a name list
-- is told by its type.
use tlspuffin.Base.{ℕ, ◌≡◌, refl, ap, Bool, false, List, [], ◌∷◌, some, subst, Result, ok}
use tlspuffin.Algebra.Shape.{FnError}
use tlspuffin.Trace.Evaluation.{Error}
use tlspuffin.Execution.Put.{ProtocolBehavior, extract_knowledge}
use tlspuffin.Ssh.NameLists.{NameList, empty}
use tlspuffin.Ssh.Messages.{SshMessage, kex_init, kex_ecdh_init, kex_ecdh_reply, new_keys}
use tlspuffin.Ssh.Packets.{RawSshMessage, banner, packet, on_wire, create_opaque}

-- The wrappers of a name list, and the name list itself.
pub data ListType : Type 0 where
  kex_algorithms signature_schemes encryption_algorithms mac_algorithms compression_algorithms
        name_list :
      ListType

pub record SshBoxing (V : Type 0) : Type 0 where
  pub box_cookie : List ℕ → V
  pub box_names : ListType → NameList → V
  pub box_bool : Bool → V
  pub box_bytes : List ℕ → V
  pub box_raw : RawSshMessage → V
  pub box_string : List ℕ → V
  pub box_on_wire : List ℕ → V

module _ {V : Type 0} (b : SshBoxing V) where
  unfoldable pub extract_message : SshMessage → Result Error (List V)
  extract_message (kex_init m) = ok (
      b.box_cookie m.cookie
      ∷ b.box_names kex_algorithms m.kex_algorithms
      ∷ b.box_names signature_schemes m.server_host_key_algorithms
      ∷ b.box_names encryption_algorithms m.encryption_algorithms_server_to_client
      ∷ b.box_names encryption_algorithms m.encryption_algorithms_client_to_server
      ∷ b.box_names mac_algorithms m.mac_algorithms_client_to_server
      ∷ b.box_names mac_algorithms m.mac_algorithms_server_to_client
      ∷ b.box_names compression_algorithms m.compression_algorithms_client_to_server
      ∷ b.box_names compression_algorithms m.compression_algorithms_server_to_client
      ∷ b.box_names name_list m.languages_client_to_server
      ∷ b.box_names name_list m.languages_server_to_client
      ∷ b.box_bool m.first_kex_packet_follows
      ∷ [])
  extract_message (kex_ecdh_init m) = ok (b.box_bytes m.ephemeral_public_key ∷ [])
  extract_message (kex_ecdh_reply m) = ok (
      b.box_bytes m.public_host_key
      ∷ b.box_bytes m.ephemeral_public_key
      ∷ b.box_bytes m.signature
      ∷ [])
  extract_message new_keys = ok []

  unfoldable pub extract_opaque : RawSshMessage → Result Error (List V)
  extract_opaque (banner text) = ok (b.box_raw (banner text) ∷ b.box_string text ∷ [])
  extract_opaque (packet p) = ok (b.box_raw (packet p) ∷ [])
  extract_opaque (on_wire slice) = ok (b.box_raw (on_wire slice) ∷ b.box_on_wire slice ∷ [])

unfoldable pub fn_raw_message : RawSshMessage → Result FnError RawSshMessage
fn_raw_message message = ok message

unfoldable pub fn_onwire_message : List ℕ → Result FnError RawSshMessage
fn_onwire_message slice = ok (on_wire slice)

unfoldable pub fn_banner : List ℕ → Result FnError RawSshMessage
fn_banner text = ok (banner text)

unfoldable pub fn_kex_ecdh_reply : List ℕ → List ℕ → List ℕ → Result FnError SshMessage
fn_kex_ecdh_reply public_host_key ephemeral_public_key signature = ok (
    kex_ecdh_reply (record {
      public_host_key = public_host_key;
      ephemeral_public_key = ephemeral_public_key;
      signature = signature;
    }))

unfoldable pub fn_kex_init :
    List ℕ
    → NameList
    → NameList
    → NameList
    → NameList
    → NameList
    → NameList
    → NameList
    → NameList
    → Result FnError SshMessage
unfolding empty
fn_kex_init cookie kex host_key encryption_to_client encryption_to_server mac_to_server
      mac_to_client compression_to_server compression_to_client =
    ok (
      kex_init (record {
        cookie = cookie;
        kex_algorithms = kex;
        server_host_key_algorithms = host_key;
        encryption_algorithms_server_to_client = encryption_to_client;
        encryption_algorithms_client_to_server = encryption_to_server;
        mac_algorithms_client_to_server = mac_to_server;
        mac_algorithms_server_to_client = mac_to_client;
        compression_algorithms_client_to_server = compression_to_server;
        compression_algorithms_server_to_client = compression_to_client;
        languages_client_to_server = empty;
        languages_server_to_client = empty;
        first_kex_packet_follows = false;
      }))

-- Where a protocol extracts what SSH does, a key exchange reply that is taken in its packet gives the
-- values that `fn_kex_ecdh_reply` makes the reply of, and then the packet.
reply-extract_knowledge :
    {V M C : Type 0} (pb : ProtocolBehavior V M C SshMessage RawSshMessage) (b : SshBoxing V)
    (is_utf8 : List ℕ → Bool) (host_key key signature : List ℕ) (m : SshMessage)
    → pb.extract_message ≡ extract_message b
    → pb.extract_opaque ≡ extract_opaque b
    → fn_kex_ecdh_reply host_key key signature ≡ ok m
    → extract_knowledge pb (record { message = some m; opaque_message = create_opaque is_utf8 m })
      ≡ ok (
          b.box_bytes host_key
          ∷ b.box_bytes key
          ∷ b.box_bytes signature
          ∷ b.box_raw (create_opaque is_utf8 m)
          ∷ [])
unfolding extract_knowledge extract_message extract_opaque fn_kex_ecdh_reply create_opaque
reply-extract_knowledge pb b is_utf8 host_key key signature m same_message same_opaque made =
    let reply =
      kex_ecdh_reply (record {
        public_host_key = host_key;
        ephemeral_public_key = key;
        signature = signature;
      }) in
    let is : reply ≡ m = cc in
    let from_message = ap (λ f. f reply) same_message in
    let from_opaque = ap (λ f. f (create_opaque is_utf8 reply)) same_opaque in
    subst
      (λ x.
        extract_knowledge pb (record { message = some x; opaque_message = create_opaque is_utf8 x })
        ≡ ok (
            b.box_bytes host_key
            ∷ b.box_bytes key
            ∷ b.box_bytes signature
            ∷ b.box_raw (create_opaque is_utf8 x)
            ∷ []))
      is (simp (extract_knowledge, from_message, from_opaque) refl)
