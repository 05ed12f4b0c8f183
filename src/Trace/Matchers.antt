-- ===== src/Trace/Matchers.antt =====
-- puffin/src/algebra/mod.rs: what a matcher is relied on for, for the matchers of queries that need not
-- name any.
use tlspuffin.Base.{◌≤◌, ◌≡◌, refl, true, Option, none, some, arith}
use tlspuffin.Trace.Context.{Matcher, option_matches, option_specificity, option_eq}

-- Matching is reflexive and transitive, and what matches a query is no less specific than the query.
pub record IsMatcher {M : Type 0} (m : Matcher M) : Type 0 where
  pub reflexive : (a : M) → m.matches a a ≡ true
  pub transitive : (a b c : M) → m.matches a b ≡ true → m.matches b c ≡ true → m.matches a c ≡ true
  pub specific : (a b : M) → m.matches a b ≡ true → m.specificity b ≤ m.specificity a

-- The implementation of `Matcher` for `Option`, as an instance.
unfoldable pub option_matcher : {M : Type 0} → Matcher M → Matcher (Option M)
unfolding option_matches option_specificity option_eq
option_matcher m = record {
  matches = option_matches m;
  specificity = option_specificity m;
  matcher_eq = option_eq m;
}

module _ {M : Type 0} {m : Matcher M} (laws : IsMatcher m) where
  option-reflexive : (a : Option M) → option_matches m a a ≡ true
  unfolding option_matches
  option-reflexive none = refl
  option-reflexive (some a) = laws.reflexive a

  option-transitive :
      (a b c : Option M)
      → option_matches m a b ≡ true
      → option_matches m b c ≡ true
      → option_matches m a c ≡ true
  unfolding option_matches
  option-transitive (some a) (some b) (some c) h k = laws.transitive a b c h k
  option-transitive (some a) (some b) none h k = refl
  option-transitive (some a) none (some c) h k = cc
  option-transitive (some a) none none h k = refl
  option-transitive none (some b) c h k = cc
  option-transitive none none c h k = k

  option-specific :
      (a b : Option M)
      → option_matches m a b ≡ true
      → option_specificity m b ≤ option_specificity m a
  unfolding option_matches option_specificity
  option-specific (some a) (some b) h = omega (arith, laws.specific a b h)
  option-specific (some a) none h = omega arith
  option-specific none (some b) h = cc
  option-specific none none h = omega arith

  pub option_matcher-IsMatcher : IsMatcher (option_matcher m)
  unfolding option_matcher
  option_matcher-IsMatcher = record {
    reflexive = option-reflexive;
    transitive = option-transitive;
    specific = option-specific;
  }

-- The matcher that matches always.
pub data AnyMatcher : Type 0 where
  any_matcher : AnyMatcher

unfoldable pub matcher_of_any : Matcher AnyMatcher
matcher_of_any = record { matches = λ a b. true; specificity = λ a. 0; matcher_eq = λ a b. true }

matcher_of_any-IsMatcher : IsMatcher matcher_of_any
unfolding matcher_of_any
matcher_of_any-IsMatcher = record {
  reflexive = λ a. refl;
  transitive = λ a b c h k. refl;
  specific = λ a b h. omega arith;
}
