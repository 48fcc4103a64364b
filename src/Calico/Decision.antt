-- ===== src/Calico/Decision.antt =====
-- The decision for one direction of a path (internal/policy/calico/analyze.go): which policies select
-- a pod, their matching rules, and the verdict.
use kube_net_mods.Prelude.{
  ℕ, ◌+◌, Bool, true, false, not, ◌||◌, ◌&&◌, List, [], ◌∷◌, ◌++◌, map, Option, none, some, Str,
  codes, str_eq, is_empty, if◌then◌else◌, any, keep, ℤ, pos, to_lower, equal_fold, join, concat,
  digits, decimal,
}
use kube_net_mods.Model.{Status}
use kube_net_mods.Cluster.{Pod, Namespace}
use kube_net_mods.Native.Names.{unique_strings}
use kube_net_mods.Native.Path.{Insight}
use kube_net_mods.Calico.Value.{
  Floats, Value, object, Fields, Item, nested_text, nested_list, string_from_map,
  numeric_float_field,
}
use kube_net_mods.Calico.Entity.{
  selector_matches, calico_namespace_labels, calico_pod_labels, nested_string_slice,
}
use kube_net_mods.Calico.Paths.{
  Direction, egress, ingress, direction_text, append_unique_limited, World, TestedPath,
  rule_matches_path,
}
use kube_net_mods.Calico.Order.{RuleMatch}

abbrev calico : Str
calico = codes "Calico"

abbrev pub insight : Str → Status → Str → Str → Insight
insight check status message diagnosis = record {
  provider = calico;
  layer = codes "Calico Policy Path";
  check = check;
  status = status;
  message = message;
  diagnosis = diagnosis;
}

-- formatPorts of this package
unfoldable pub format_port_list : List ℤ → Str
unfolding decimal join
format_port_list [] = codes "(unknown)"
format_port_list (p ∷ ports) = join (map decimal (p ∷ ports)) (codes ", ")

abbrev pub check_name : Direction → Str
check_name egress = codes "source egress to target"
check_name ingress = codes "target ingress from source"

abbrev or_allow : Str → Str
or_allow action = if is_empty action then codes "allow" else action

abbrev or_default_tier : Str → Str
or_default_tier tier = if is_empty tier then codes "default" else tier

-- What one rule does to the loop over the rules of a policy.
pub data Step : Type 0 where
  near_miss ignored ends continues : Step

unfoldable pub step_of : Bool × Str → Str → Step
unfolding str_eq
step_of (false, reason) action =
    if (str_eq action (codes "allow") || str_eq action (codes "pass"))
      && not (str_eq reason (codes "rule protocol does not match tested protocol"))
    then near_miss
    else ignored
step_of (true, reason) action =
    if str_eq action (codes "log")
    then ignored
    else if str_eq action (codes "allow") || str_eq action (codes "deny")
    then ends
    else continues

module _ (F : Floats) where
  open F use {Float, of_int}

  unfoldable pub calico_policy_tier : Item F → Str
  calico_policy_tier item = or_default_tier (nested_text F item.spec (codes "tier"))

  unfoldable pub calico_policy_order : Item F → Float
  unfolding numeric_float_field
  calico_policy_order item = elim (numeric_float_field F item.spec (codes "order")) [
    | none ↦ of_int (pos 1000000)
    | some order ↦ order
  ]

  -- The order of the first tier object with the name that has one.
  tier_order_in : Str → List (Item F) → Option Float
  unfolding numeric_float_field str_eq
  tier_order_in name [] = none
  tier_order_in name (tier ∷ tiers) =
      let later = tier_order_in name tiers in
      if str_eq tier.name name
      then elim (numeric_float_field F tier.spec (codes "order")) [
        | none ↦ later
        | some order ↦ some order
      ]
      else later

  unfoldable pub calico_tier_order : Str → List (Item F) → Float
  unfolding tier_order_in str_eq
  calico_tier_order given tiers =
      let name = or_default_tier given in
      elim (tier_order_in name tiers) [
        | some order ↦ order
        | none ↦ if str_eq name (codes "default") then of_int (pos 1000000) else of_int (pos 500000)
      ]

  unfoldable pub calico_policy_display_name : Item F → Str
  calico_policy_display_name item =
      (if is_empty item.namespace then codes "global" else item.namespace) ++ codes "/" ++ item.name

  unfoldable pub calico_policy_names : List (Item F) → List Str
  unfolding unique_strings
  calico_policy_names policies =
      unique_strings
        (map (λ p. (if is_empty p.namespace then codes "global/" else []) ++ p.name) policies)

  module _ (W : World F) where
    abbrev texts : Item F → Str → List Str
    texts item key = nested_string_slice F W.netip W.print W.parse item.spec key

    unfoldable pub policy_has_type : Item F → Direction → Bool
    unfolding nested_string_slice equal_fold
    policy_has_type item direction =
        let types = texts item (codes "types") in
        if is_empty types
        then elim direction [
          | ingress ↦ true
          | egress ↦ not (is_empty (nested_list F item.spec (codes "egress")))
        ]
        else any (λ t. equal_fold t (direction_text direction)) types

    abbrev selector_or_all : Str → Str
    selector_or_all raw = if is_empty raw then codes "all()" else raw

    -- policySelectsTarget, without its note on a selector that does not parse
    unfoldable pub policy_selects_target : Item F → Namespace → List Pod → Bool
    unfolding str_eq calico_namespace_labels calico_pod_labels
    policy_selects_target item namespace pods =
        let namespace_selector = nested_text F item.spec (codes "namespaceSelector") in
        let selector = selector_or_all (nested_text F item.spec (codes "selector")) in
        if not (is_empty item.namespace) && not (str_eq item.namespace namespace.name)
        then false
        else if not (is_empty namespace_selector)
            && not (selector_matches W.parse namespace_selector (calico_namespace_labels namespace))
        then false
        else any (λ pod. selector_matches W.parse selector (calico_pod_labels pod)) pods

    -- policiesForPod, with one pod, and policiesForAnyPod
    unfoldable pub policies_for_any_pod :
        List (Item F) → Namespace → List Pod → Direction → List (Item F)
    unfolding policy_has_type policy_selects_target
    policies_for_any_pod policies namespace pods direction =
        keep (λ item. policy_has_type item direction && policy_selects_target item namespace pods)
          policies

    abbrev pub action_of : Fields F → Str
    action_of rule = or_allow (to_lower (string_from_map F W.print rule (codes "action")))

    module _ (direction : Direction) (tiers : List (Item F)) (path : TestedPath) where
      -- One policy's rules, from `index`: the matches up to the first Allow or Deny, and the reasons of
      -- the Allow and Pass rules that miss.
      unfoldable pub rules_of :
          Item F
          → ℕ
          → List (Value F)
          → List (RuleMatch F)
          → List Str
          → List (RuleMatch F) × List Str
      unfolding step_of rule_matches_path string_from_map to_lower calico_policy_display_name
          calico_policy_tier calico_tier_order calico_policy_order append_unique_limited concat
          digits str_eq
      rules_of item index [] found misses = (found, misses)
      rules_of item index (object rule ∷ rules) found misses =
          let result = rule_matches_path F W rule direction path in
          let action = action_of rule in
          let name = calico_policy_display_name item in
          let tier = calico_policy_tier item in
          let more : List (RuleMatch F) =
            found
            ++ record {
              policy = name;
              tier = tier;
              tier_order = calico_tier_order tier tiers;
              policy_order = calico_policy_order item;
              rule_index = index;
              action = action;
              reason = result.1;
            }
              ∷ [] in
          let missed =
            append_unique_limited misses
              (concat (name ∷ codes " rule " ∷ digits index ∷ codes ": " ∷ result.1 ∷ [])) 3 in
          let after_log = rules_of item (index + 1) rules found misses in
          let after_match = rules_of item (index + 1) rules more misses in
          let after_miss = rules_of item (index + 1) rules found missed in
          elim (step_of result action) [
            | near_miss ↦ after_miss
            | ignored ↦ after_log
            | ends ↦ (more, misses)
            | continues ↦ after_match
          ]
      rules_of item index (_ ∷ rules) found misses = rules_of item (index + 1) rules found misses

      unfoldable pub rules_of_all :
          List (Item F) → List (RuleMatch F) → List Str → List (RuleMatch F) × List Str
      unfolding rules_of
      rules_of_all [] found misses = (found, misses)
      rules_of_all (item ∷ items) found misses =
          let step =
            rules_of item 1 (nested_list F item.spec (direction_text direction)) found misses in
          rules_of_all items step.0 step.1
