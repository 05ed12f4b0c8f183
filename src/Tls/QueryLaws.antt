-- ===== src/Tls/QueryLaws.antt =====
-- tlspuffin/src/query.rs: matching of TLS messages is lawful.
use tlspuffin.Base.{
  ◌≤◌, ◌≡◌, ◌↔◌, ◌⊎◌, inl, inr, refl, sym, ap, ◌∙◌, subst, Bool, true, Option, none, some, arith,
}
use tlspuffin.Trace.Context.{option_matches}
use tlspuffin.Trace.Matchers.{IsMatcher, option_matcher, option_matcher-IsMatcher}
use tlspuffin.Tls.Query.{
  TlsQueryMatcher, change_cipher_spec, alert, handshake, application_data, heartbeat,
  handshake_matcher, tls_matches, tls_specificity, tls_matcher,
}

module _ {H : Type 0} {handshake_eq : H → H → Bool}
    (eq_iff : (a b : H) → (handshake_eq a b ≡ true) ↔ (a ≡ b)) where
  handshake-IsMatcher : IsMatcher (handshake_matcher handshake_eq)
  unfolding handshake_matcher
  handshake-IsMatcher = record {
    reflexive = λ a. (eq_iff a a).1 refl;
    transitive = λ a b c h k. (eq_iff c a).1 ((eq_iff c b).0 k ∙ (eq_iff b a).0 h);
    specific = λ a b h. omega arith;
  }

  -- What matches is the same, or both are of handshakes whose types match.
  tls_matches-cases :
      (a b : TlsQueryMatcher H)
      → tls_matches handshake_eq a b ≡ true
      → ((x y : Option H) × (a ≡ handshake x)
          × (b ≡ handshake y)
          × (option_matches (handshake_matcher handshake_eq) x y ≡ true))
        ⊎ (a ≡ b)
  unfolding tls_matches
  tls_matches-cases change_cipher_spec change_cipher_spec h = inr refl
  tls_matches-cases change_cipher_spec alert h = cc
  tls_matches-cases change_cipher_spec application_data h = cc
  tls_matches-cases change_cipher_spec heartbeat h = cc
  tls_matches-cases change_cipher_spec (handshake y) h = cc
  tls_matches-cases alert change_cipher_spec h = cc
  tls_matches-cases alert alert h = inr refl
  tls_matches-cases alert application_data h = cc
  tls_matches-cases alert heartbeat h = cc
  tls_matches-cases alert (handshake y) h = cc
  tls_matches-cases application_data change_cipher_spec h = cc
  tls_matches-cases application_data alert h = cc
  tls_matches-cases application_data application_data h = inr refl
  tls_matches-cases application_data heartbeat h = cc
  tls_matches-cases application_data (handshake y) h = cc
  tls_matches-cases heartbeat change_cipher_spec h = cc
  tls_matches-cases heartbeat alert h = cc
  tls_matches-cases heartbeat application_data h = cc
  tls_matches-cases heartbeat heartbeat h = inr refl
  tls_matches-cases heartbeat (handshake y) h = cc
  tls_matches-cases (handshake x) change_cipher_spec h = cc
  tls_matches-cases (handshake x) alert h = cc
  tls_matches-cases (handshake x) application_data h = cc
  tls_matches-cases (handshake x) heartbeat h = cc
  tls_matches-cases (handshake x) (handshake y) h = inl (x, y, refl, refl, h)

  tls-reflexive : (a : TlsQueryMatcher H) → tls_matches handshake_eq a a ≡ true
  unfolding tls_matches
  tls-reflexive change_cipher_spec = refl
  tls-reflexive alert = refl
  tls-reflexive application_data = refl
  tls-reflexive heartbeat = refl
  tls-reflexive (handshake x) =
      unfold option_matcher in (option_matcher-IsMatcher handshake-IsMatcher).reflexive x

  tls-transitive :
      (a b c : TlsQueryMatcher H)
      → tls_matches handshake_eq a b ≡ true
      → tls_matches handshake_eq b c ≡ true
      → tls_matches handshake_eq a c ≡ true
  unfolding tls_matches option_matcher
  tls-transitive a b c h k = elim (tls_matches-cases a b h) [
    | inr same ↦ subst (λ x. tls_matches handshake_eq x c ≡ true) (sym same) k
    | inl (x, y, is_x, is_y, matched) ↦ elim (tls_matches-cases b c k) [
      | inr same ↦ subst (λ z. tls_matches handshake_eq a z ≡ true) same h
      | inl (y', z, is_y', is_z, matched') ↦
          let same : y ≡ y' = cc (is_y, is_y') in
          rw (is_x, is_z)
            ((option_matcher-IsMatcher handshake-IsMatcher).transitive x y z matched (
              subst (λ w. option_matches (handshake_matcher handshake_eq) w z ≡ true) (sym same)
                matched'))
    ]
  ]

  tls-specific :
      (a b : TlsQueryMatcher H)
      → tls_matches handshake_eq a b ≡ true
      → tls_specificity handshake_eq b ≤ tls_specificity handshake_eq a
  unfolding tls_specificity option_matches handshake_matcher
  tls-specific a b h = elim (tls_matches-cases a b h) [
    | inr same ↦ omega (arith, ap (tls_specificity handshake_eq) same)
    | inl (x, y, is_x, is_y, matched) ↦ rw (is_x, is_y) (by_type x y matched)
  ]
    where
      by_type :
          (x y : Option H)
          → option_matches (handshake_matcher handshake_eq) x y ≡ true
          → tls_specificity handshake_eq (handshake y) ≤ tls_specificity handshake_eq (handshake x)
      by_type (some x) (some y) m = omega arith
      by_type (some x) none m = omega arith
      by_type none none m = omega arith
      by_type none (some y) m = cc

  -- Where the equality of handshake types is equality, matching of TLS messages is reflexive and
  -- transitive, and what matches a query is no less specific than the query; the same holds for
  -- matchers that may be missing.
  pub tls_matcher-IsMatcher :
      IsMatcher (tls_matcher handshake_eq) × IsMatcher (option_matcher (tls_matcher handshake_eq))
  unfolding tls_matcher
  tls_matcher-IsMatcher =
      let laws : IsMatcher (tls_matcher handshake_eq) = record {
        reflexive = tls-reflexive;
        transitive = tls-transitive;
        specific = tls-specific;
      } in
      (laws, option_matcher-IsMatcher laws)
