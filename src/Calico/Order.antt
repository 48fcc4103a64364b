-- ===== src/Calico/Order.antt =====
-- The order of matching rules and what a Pass leads to (internal/policy/calico/analyze.go,
-- sortRuleMatches and effectiveCalicoMatchAfterPass).
pub mod Ends
pub mod First
pub mod Sorted
use kube_net_mods.Prelude.{
  ℕ, zero, suc, ◌+◌, Bool, true, false, not, ◌||◌, ◌&&◌, ◌==◌, ltb, List, [], ◌∷◌, Option, none,
  some, Str, codes, str_eq, str_leb, if◌then◌else◌, find, length, is_empty, any, keep,
}
use kube_net_mods.Calico.Value.{Floats}
use kube_net_mods.Calico.Paths.{append_unique_limited}

module _ (F : Floats) where
  open F use {Float, less}

  -- calicoRuleMatch
  pub record RuleMatch : Type 0 where
    pub policy : Str
    pub tier : Str
    pub tier_order : Float
    pub policy_order : Float
    pub rule_index : ℕ
    pub action : Str
    pub reason : Str

  -- `a != b`, for numbers that compare
  abbrev pub differ : Float → Float → Bool
  differ a b = less a b || less b a

  -- The less function of sortRuleMatches
  unfoldable pub comes_before : RuleMatch → RuleMatch → Bool
  unfolding str_leb
  comes_before a b =
      if differ a.tier_order b.tier_order
      then less a.tier_order b.tier_order
      else if differ a.policy_order b.policy_order
      then less a.policy_order b.policy_order
      else if not (a.rule_index == b.rule_index)
      then ltb a.rule_index b.rule_index
      else not (str_leb b.policy a.policy)

  -- sort.SliceStable: a match stays before the later ones that it is not after.
  unfoldable pub insert_match : RuleMatch → List RuleMatch → List RuleMatch
  unfolding comes_before
  insert_match m [] = m ∷ []
  insert_match m (n ∷ ns) =
      let later = n ∷ insert_match m ns in if comes_before n m then later else m ∷ n ∷ ns

  unfoldable pub sort_rule_matches : List RuleMatch → List RuleMatch
  unfolding insert_match
  sort_rule_matches [] = []
  sort_rule_matches (m ∷ ms) = insert_match m (sort_rule_matches ms)

  -- What a list of matches comes to: no match, a match that decides, a Pass that nothing follows.
  pub data Effective : Type 0 where
    no_match : Effective
    decided : RuleMatch → Effective
    passed : RuleMatch → Effective
    out_of_fuel : Effective

  abbrev pub is_pass : RuleMatch → Bool
  is_pass m = str_eq m.action (codes "pass")

  -- The first match of a later tier.
  abbrev pub next_tier : List RuleMatch → RuleMatch → Option RuleMatch
  next_tier matches current = find (λ c. less current.tier_order c.tier_order) matches

  unfoldable pub follow : ℕ → List RuleMatch → RuleMatch → Effective
  unfolding str_eq
  follow zero matches current = out_of_fuel
  follow (suc fuel) matches current =
      if is_pass current
      then elim (next_tier matches current) [
        | none ↦ passed current
        | some next ↦ follow fuel matches next
      ]
      else decided current

  -- The fuel is more than there are matches: each step goes to a later tier.
  unfoldable pub effective_calico_match_after_pass : List RuleMatch → Effective
  unfolding follow
  effective_calico_match_after_pass [] = no_match
  effective_calico_match_after_pass (m ∷ ms) = follow (length (m ∷ ms) + 1) (m ∷ ms) m

  unfoldable pub additional_calico_denies : List RuleMatch → RuleMatch → List Str → List Str
  unfolding append_unique_limited str_eq
  additional_calico_denies [] first out = out
  additional_calico_denies (m ∷ ms) first out = additional_calico_denies ms first (
      if not (str_eq m.action (codes "deny")) || str_eq m.policy first.policy
      then out
      else append_unique_limited out m.policy 4)
