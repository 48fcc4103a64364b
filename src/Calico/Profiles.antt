-- ===== src/Calico/Profiles.antt =====
-- The workload profiles that decide where no policy does (internal/policy/calico/analyze.go,
-- calicoProfileFallbackDecision and what it calls). `none` is the result false.
use kube_net_mods.Prelude.{
  ℕ, ◌+◌, not, ◌||◌, List, [], ◌∷◌, ◌++◌, map, Option, none, some, Str, codes, str_eq, is_empty,
  if◌then◌else◌, quote, digits, join, concat, to_lower,
}
use kube_net_mods.Model.{pass, fail, warn}
use kube_net_mods.Cluster.{Pod, Namespace}
use kube_net_mods.Native.Path.{Insight}
use kube_net_mods.Calico.Value.{Floats, Value, object, Item, nested_list, string_from_map}
use kube_net_mods.Calico.Paths.{
  Direction, egress, ingress, direction_text, World, TestedPath, rule_matches_path,
}
use kube_net_mods.Calico.Decision.{insight, action_of, format_port_list}

module _ (F : Floats) (W : World F) where
  -- The last of the profiles with the name, as a map by name keeps it.
  last_named : Str → List (Item F) → Option (Item F)
  unfolding str_eq
  last_named name [] = none
  last_named name (p ∷ ps) =
      let later = last_named name ps in
      elim later [ some q ↦ some q | none ↦ if str_eq p.name name then some p else none ]

  abbrev as_list : Option (Item F) → List (Item F)
  as_list none = []
  as_list (some p) = p ∷ []

  unfoldable pub calico_profiles_for_pod : List (Item F) → Namespace → Pod → List (Item F)
  unfolding last_named concat
  calico_profiles_for_pod profiles namespace pod =
      let account = if is_empty pod.service_account then codes "default" else pod.service_account in
      as_list (last_named (codes "kns." ++ namespace.name) profiles)
      ++ as_list
          (last_named (concat (codes "ksa." ∷ namespace.name ∷ codes "." ∷ account ∷ [])) profiles)

  module _ (direction : Direction) (path : TestedPath) where
    -- The first Allow or Deny of a profile that matches.
    profile_rules : Item F → ℕ → List (Value F) → Option Insight
    unfolding rule_matches_path string_from_map to_lower concat quote digits str_eq
    profile_rules profile index [] = none
    profile_rules profile index (object rule ∷ rules) =
        let result = rule_matches_path F W rule direction path in
        let action = action_of F W rule in
        let later = profile_rules profile (index + 1) rules in
        let where_text : Str = concat (
          direction_text direction
          ∷ codes " via profile "
          ∷ quote profile.name
          ∷ codes " rule "
          ∷ digits index
          ∷ codes ". Reason: "
          ∷ result.1
          ∷ codes "."
          ∷ []) in
        if not result.0
        then later
        else if str_eq action (codes "allow")
        then some
            (insight [] pass (codes "Calico workload profile fallback allows " ++ where_text) [])
        else if str_eq action (codes "deny")
        then some (
            insight [] fail (codes "Calico workload profile fallback denies " ++ where_text) (
              concat (
                codes "Primary issue: Calico workload profile "
                ∷ quote profile.name
                ∷ codes " rule "
                ∷ digits index
                ∷ codes " denies the "
                ∷ direction_text direction
                ∷ codes " path. Reason: "
                ∷ result.1
                ∷ codes "."
                ∷ [])))
        else later
    profile_rules profile index (_ ∷ rules) = profile_rules profile (index + 1) rules

    all_profiles : List (Item F) → Option Insight
    unfolding profile_rules
    all_profiles [] = none
    all_profiles (p ∷ ps) =
        let later = all_profiles ps in
        elim (profile_rules p 1 (nested_list F p.spec (direction_text direction))) [
          | some found ↦ some found
          | none ↦ later
        ]

    -- calicoProfilesForEndpointDecision on the selected profiles
    unfoldable pub profiles_decision : List (Item F) → Option Insight
    unfolding all_profiles concat join format_port_list
    profiles_decision [] = none
    profiles_decision (p ∷ ps) = elim (all_profiles (p ∷ ps)) [
      | some found ↦ some found
      | none ↦ some (
          insight [] fail
            (concat (
              codes "Calico workload profile fallback found profile(s) "
              ∷ join (map (λ q. q.name) (p ∷ ps)) (codes ", ")
              ∷ codes ", but no matching Allow rule was found for TCP port(s) "
              ∷ format_port_list path.ports
              ∷ codes "."
              ∷ []))
            (concat (
              codes "Primary issue: Calico workload profile fallback default-denies the "
              ∷ direction_text direction
              ∷ codes " path because no matching Allow rule was found."
              ∷ [])))
    ]

  -- The path to one of the target pods
  abbrev toward : TestedPath → Pod → TestedPath
  toward path pod = record path { targets = pod ∷ [] }

  denied_target : Pod → Insight → Insight
  unfolding quote concat
  denied_target pod found = record found {
    message = concat (
        codes "Calico workload profile fallback for target pod "
        ∷ quote pod.name
        ∷ codes " denies the ingress path. "
        ∷ found.message
        ∷ []);
    diagnosis =
        if is_empty found.diagnosis
        then []
        else concat (
            codes "Calico workload profile fallback denies ingress to target pod "
            ∷ quote pod.name
            ∷ codes ". "
            ∷ found.diagnosis
            ∷ []);
  }

  -- The target pods in turn: one without profiles ends without a decision, a refusal is the decision.
  ingress_targets : List (Item F) → TestedPath → List Pod → List Str → Option Insight
  unfolding profiles_decision calico_profiles_for_pod denied_target concat join
  ingress_targets profiles path [] allowed = some (
      insight [] pass
        (concat (
          codes "Calico workload profile fallback allows ingress to target pod(s): "
          ∷ join allowed (codes ", ")
          ∷ codes "."
          ∷ []))
        [])
  ingress_targets profiles path (pod ∷ pods) allowed =
      let later = ingress_targets profiles path pods (allowed ++ pod.name ∷ []) in
      elim (profiles_decision ingress (toward path pod)
        (calico_profiles_for_pod profiles path.target_namespace pod)) [
          | none ↦ none
          | some found ↦ elim found.status [
            | fail ↦ some (denied_target pod found)
            | warn ↦ some found
            | _ ↦ later
          ]
        ]

  unfoldable pub calico_profile_fallback_decision :
      Direction → List (Item F) → TestedPath → Option Insight
  unfolding profiles_decision calico_profiles_for_pod ingress_targets
  calico_profile_fallback_decision egress profiles path =
      profiles_decision egress path
        (calico_profiles_for_pod profiles path.source_namespace path.source)
  calico_profile_fallback_decision ingress profiles path =
      if is_empty profiles || is_empty path.targets
      then none
      else ingress_targets profiles path path.targets []
