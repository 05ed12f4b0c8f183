-- ===== src/Trace/Context.antt =====
-- puffin/src/trace.rs, puffin/src/claims.rs and puffin/src/algebra/mod.rs: the attacker's knowledge,
-- the claims of the agents, and the lookup of a variable in them.
use tlspuffin.Base.{
  ℕ, ◌+◌, Bool, true, false, ◌&&◌, List, [], ◌∷◌, Option, none, some, length, get_elem?, keep, find,
  reverse, ◌==◌, leb, if◌then◌else◌, and_then,
}
use tlspuffin.Agent.{AgentName}
use tlspuffin.Algebra.Shape.{TypeShape, type_eq}
use tlspuffin.Algebra.Term.{Query}

-- The trait `Matcher`, with the equality test that it requires.
pub record Matcher (M : Type 0) : Type 0 where
  pub matches : M → M → Bool
  pub specificity : M → ℕ
  pub matcher_eq : M → M → Bool

module _ {M : Type 0} (m : Matcher M) where
  -- The implementation of `Matcher` for `Option`.
  unfoldable pub option_matches : Option M → Option M → Bool
  option_matches (some inner) (some inner_matcher) = m.matches inner inner_matcher
  option_matches (some inner) none = true
  option_matches none none = true
  option_matches none (some inner_matcher) = false

  unfoldable pub option_specificity : Option M → ℕ
  option_specificity (some matcher) = 1 + m.specificity matcher
  option_specificity none = 0

  unfoldable pub option_eq : Option M → Option M → Bool
  option_eq (some a) (some b) = m.matcher_eq a b
  option_eq none none = true
  option_eq _ _ = false

pub record Knowledge (V M : Type 0) : Type 0 where
  pub agent_name : AgentName
  pub matcher : Option M
  pub data_value : V

-- What the trait `Claim` reads of a claim.
pub record Claim (V : Type 0) : Type 0 where
  pub agent_name : AgentName
  pub id : TypeShape
  pub inner : V

module _ {V : Type 0} where
  unfoldable pub find_last_claim : List (Claim V) → AgentName → TypeShape → Option (Claim V)
  unfolding type_eq
  find_last_claim claims agent_name shape =
      find (λ c. type_eq c.id shape && c.agent_name == agent_name) (reverse claims)

-- `Vec::sort_by_key`, which is stable: items of one key keep their order.
module _ {A : Type 0} (key : A → ℕ) where
  unfoldable pub insert_by : A → List A → List A
  insert_by x [] = x ∷ []
  insert_by x (y ∷ ys) = if leb (key x) (key y) then x ∷ y ∷ ys else y ∷ insert_by x ys

  unfoldable pub sort_by_key : List A → List A
  unfolding insert_by
  sort_by_key [] = []
  sort_by_key (x ∷ xs) = insert_by x (sort_by_key xs)

module _ {V M : Type 0} (type_id : V → ℕ) (m : Matcher M) where
  unfoldable pub is_possible : TypeShape → Query M → Knowledge V M → Bool
  unfolding option_matches
  is_possible query_type_shape query k =
      query_type_shape.inner_type_id == type_id k.data_value
      && (query.agent_name == k.agent_name && option_matches m k.matcher query.matcher)

  unfoldable pub find_variable : List (Knowledge V M) → TypeShape → Query M → Option V
  unfolding is_possible sort_by_key option_specificity
  find_variable knowledge query_type_shape query =
      let possibilities = keep (is_possible query_type_shape query) knowledge in
      and_then
        (get_elem? (sort_by_key (λ k. option_specificity m k.matcher) possibilities) query.counter)
        (λ k. some k.data_value)

  unfoldable pub number_matching_message : List (Knowledge V M) → AgentName → ℕ → Option M → ℕ
  unfolding option_eq
  number_matching_message knowledge agent id tls_message_type = length (
      keep
        (λ k.
          k.agent_name == agent
          && (option_eq m k.matcher tls_message_type && type_id k.data_value == id))
        knowledge)

-- What evaluation reads of a trace context.
pub record Environment (V M : Type 0) : Type 0 where
  pub knowledge : List (Knowledge V M)
  pub claims : List (Claim V)
