-- ===== src/Calico/Verdict.antt =====
-- calicoDirectionDecision and analyzePath (internal/policy/calico/analyze.go).
pub mod Laws
use kube_net_mods.Prelude.{
  ℕ, ◌+◌, Bool, true, false, not, ◌||◌, List, [], ◌∷◌, ◌++◌, Option, none, some, Str, codes, str_eq,
  is_empty, if◌then◌else◌, quote, digits, join, concat,
}
use kube_net_mods.Model.{Status, pass, fail, warn}
use kube_net_mods.Cluster.{Pod, Namespace}
use kube_net_mods.Native.Path.{Insight, service_name}
use kube_net_mods.Calico.Value.{Floats, Item}
use kube_net_mods.Calico.Paths.{Direction, egress, ingress, direction_text, World, TestedPath}
use kube_net_mods.Calico.Order.{
  RuleMatch, sort_rule_matches, Effective, no_match, decided, passed, out_of_fuel,
  effective_calico_match_after_pass, additional_calico_denies,
}
use kube_net_mods.Calico.Decision.{
  insight, check_name, format_port_list, calico_policy_names, policies_for_any_pod, rules_of_all,
}
use kube_net_mods.Calico.Profiles.{calico_profile_fallback_decision}

module _ (F : Floats) (direction : Direction) (path : TestedPath) where
  abbrev way : Str
  way = direction_text direction

  -- The verdict on the first effective match.
  unfoldable pub decided_insight : List (RuleMatch F) → RuleMatch F → Insight
  unfolding additional_calico_denies concat quote digits join service_name
  decided_insight matches first =
      let denies = additional_calico_denies F matches first [] in
      let base : Str → Str = λ action. concat (
        codes "For the target service path, first matching Calico action is "
        ∷ action
        ∷ codes ": "
        ∷ first.policy
        ∷ codes " "
        ∷ way
        ∷ codes " in tier "
        ∷ quote first.tier
        ∷ codes ". Reason: "
        ∷ first.reason
        ∷ codes "."
        ∷ []) in
      if str_eq first.action (codes "deny")
      then insight (check_name direction) fail
          (base (codes "Deny")
            ++ (if is_empty denies
                then []
                else concat (
                    codes " Additional matching Deny policies also select this path: "
                    ∷ join denies (codes ", ")
                    ∷ codes "."
                    ∷ [])))
          (concat (
            codes "Primary issue: Calico "
            ∷ first.policy
            ∷ codes " rule "
            ∷ digits first.rule_index
            ∷ codes " in tier "
            ∷ quote first.tier
            ∷ codes " denies the "
            ∷ way
            ∷ codes " path between source pod "
            ∷ quote path.source.name
            ∷ codes " and Service "
            ∷ quote (service_name path.service)
            ∷ codes ". Reason: "
            ∷ first.reason
            ∷ codes "."
            ∷ []))
      else insight (check_name direction) pass (base (codes "Allow")) []

  abbrev closest : List Str → Str
  closest [] = []
  closest (m ∷ ms) = concat (codes " Closest allow-rule miss: " ∷ m ∷ codes "." ∷ [])

  abbrev closest_all : List Str → Str
  closest_all [] = []
  closest_all (m ∷ ms) =
      concat (codes " Closest allow-rule miss: " ∷ join (m ∷ ms) (codes "; ") ∷ codes "." ∷ [])

  unfoldable pub default_deny_insight : List Str → List Str → Insight
  unfolding concat quote join service_name format_port_list
  default_deny_insight names misses =
      insight (check_name direction) fail
        (concat (
          codes "Calico "
          ∷ way
          ∷ codes " policy selects this side of the path ("
          ∷ join names (codes ", ")
          ∷ codes "), but no matching Allow rule was found for TCP port(s) "
          ∷ format_port_list path.ports
          ∷ codes "."
          ∷ closest_all misses
          ∷ []))
        (concat (
          codes "Calico "
          ∷ way
          ∷ codes " default-deny likely blocks traffic between source pod "
          ∷ quote path.source.name
          ∷ codes " and Service "
          ∷ quote (service_name path.service)
          ∷ codes ". Policies: "
          ∷ join names (codes ", ")
          ∷ codes "."
          ∷ closest misses
          ∷ []))

  -- A Pass that no later tier follows goes on to the profiles.
  unfoldable pub passed_insight : Option Insight → RuleMatch F → Insight
  unfolding concat quote
  passed_insight fallback first =
      let before : Str = concat (
        codes "Calico "
        ∷ way
        ∷ codes " first matching action is Pass in tier "
        ∷ quote first.tier
        ∷ codes " via "
        ∷ first.policy
        ∷ codes ". "
        ∷ []) in
      elim fallback [
        | some found ↦ record found {
          check = check_name direction;
          message = before ++ found.message;
          diagnosis =
              if is_empty found.diagnosis
              then []
              else codes "Calico Pass falls through to workload profile evaluation. "
                ++ found.diagnosis;
        }
        | none ↦
            insight (check_name direction) warn
              (before
                ++ codes
                    "No later tier match was found, and no inferred workload profile decision could be made.")
              []
      ]

  unfoldable pub unselected_insight : Option Insight → Insight
  unfolding concat
  unselected_insight fallback =
      let base : Str =
        concat (codes "No Calico " ∷ way ∷ codes " policies select this side of the path." ∷ []) in
      elim fallback [
        | some found ↦ record found {
          check = check_name direction;
          message = base ++ codes " " ++ found.message;
        }
        | none ↦ insight (check_name direction) pass base []
      ]

  abbrev head_or : RuleMatch F → List (RuleMatch F) → RuleMatch F
  head_or default [] = default
  head_or default (m ∷ ms) = m

  -- The verdict on the sorted matches. An action that is neither Allow nor Deny nor Pass decides
  -- nothing.
  unfoldable pub match_verdict : Option Insight → List Str → List Str → List (RuleMatch F) → Insight
  unfolding decided_insight default_deny_insight passed_insight effective_calico_match_after_pass
  match_verdict fallback names misses matches = elim (effective_calico_match_after_pass F matches) [
    | no_match ↦ default_deny_insight names misses
    | out_of_fuel ↦ default_deny_insight names misses
    | passed last ↦ passed_insight fallback (head_or last matches)
    | decided first ↦
        if str_eq first.action (codes "deny") || str_eq first.action (codes "allow")
        then decided_insight matches first
        else default_deny_insight names misses
  ]

module _ (F : Floats) (W : World F) where
  unfoldable pub calico_direction_decision :
      List (Item F) → Direction → List (Item F) → List (Item F) → TestedPath → Insight
  unfolding match_verdict unselected_insight sort_rule_matches rules_of_all
      calico_profile_fallback_decision calico_policy_names
  calico_direction_decision policies direction tiers profiles path =
      let fallback = calico_profile_fallback_decision F W direction profiles path in
      let found = rules_of_all F W direction tiers path policies [] [] in
      if is_empty policies
      then unselected_insight F direction path fallback
      else match_verdict F direction path fallback (calico_policy_names F policies) found.1
          (sort_rule_matches F found.0)

  unfoldable pub analyze_path :
      List (Item F) → List (Item F) → List (Item F) → List (Item F) → TestedPath → List Insight
  unfolding calico_direction_decision policies_for_any_pod
  analyze_path namespaced global tiers profiles path =
      let all = namespaced ++ global in
      calico_direction_decision
        (policies_for_any_pod F W all path.source_namespace (path.source ∷ []) egress) egress tiers
        profiles path
      ∷ calico_direction_decision
          (policies_for_any_pod F W all path.target_namespace path.targets ingress) ingress tiers
          profiles path
      ∷ []
