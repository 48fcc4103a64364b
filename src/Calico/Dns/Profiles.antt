-- ===== src/Calico/Dns/Profiles.antt =====
-- The workload profiles that decide on DNS traffic where no policy does
-- (internal/policy/calico/analyze.go, calicoDNSProfileFallbackDecision).
use kube_net_mods.Prelude.{
  ℕ, ◌+◌, not, List, [], ◌∷◌, ◌++◌, map, Option, none, some, Str, codes, str_eq, if◌then◌else◌,
  to_lower, quote, digits, join, concat,
}
use kube_net_mods.Model.{pass, fail}
use kube_net_mods.Cluster.{Pod, Namespace}
use kube_net_mods.Native.Path.{Insight}
use kube_net_mods.Calico.Value.{Floats, Value, object, Item, nested_list}
use kube_net_mods.Calico.Paths.{World}
use kube_net_mods.Calico.Decision.{action_of}
use kube_net_mods.Calico.Profiles.{calico_profiles_for_pod}
use kube_net_mods.Calico.Dns.{DnsContext, describe_resolver, dns_insight, rule_matches_dns_resolver}

module _ (F : Floats) (W : World F) (resolver : Str) (dns : DnsContext) where
  -- The first Allow or Deny of a profile that matches.
  dns_profile_rules : Pod → Item F → ℕ → List (Value F) → Option Insight
  unfolding rule_matches_dns_resolver describe_resolver concat quote digits str_eq to_lower
  dns_profile_rules source profile index [] = none
  dns_profile_rules source profile index (object rule ∷ rules) =
      let result = rule_matches_dns_resolver F W resolver dns rule in
      let action = action_of F W rule in
      let later = dns_profile_rules source profile (index + 1) rules in
      let where_text : Str = concat (
        codes " DNS to runtime resolver "
        ∷ describe_resolver resolver
        ∷ codes " via profile "
        ∷ quote profile.name
        ∷ codes " rule "
        ∷ digits index
        ∷ codes "."
        ∷ []) in
      if not result.0
      then later
      else if str_eq action (codes "allow")
      then some
          (dns_insight pass (codes "Calico workload profile fallback allows" ++ where_text) [])
      else if str_eq action (codes "deny")
      then some (
          dns_insight fail
            (concat (
              codes "Calico workload profile fallback denies"
              ∷ where_text
              ∷ codes " Reason: "
              ∷ result.1
              ∷ codes "."
              ∷ []))
            (concat (
              codes "Primary issue: Calico workload profile "
              ∷ quote profile.name
              ∷ codes " denies DNS egress from source pod "
              ∷ quote source.name
              ∷ codes " to runtime resolver "
              ∷ describe_resolver resolver
              ∷ codes "."
              ∷ [])))
      else later
  dns_profile_rules source profile index (_ ∷ rules) =
      dns_profile_rules source profile (index + 1) rules

  dns_profiles : Pod → List (Item F) → Option Insight
  unfolding dns_profile_rules
  dns_profiles source [] = none
  dns_profiles source (p ∷ ps) =
      let later = dns_profiles source ps in
      elim (dns_profile_rules source p 1 (nested_list F p.spec (codes "egress"))) [
        | some found ↦ some found
        | none ↦ later
      ]

  profiles_verdict : Pod → List (Item F) → Option Insight
  unfolding dns_profiles describe_resolver concat join
  profiles_verdict source [] = none
  profiles_verdict source (p ∷ ps) = elim (dns_profiles source (p ∷ ps)) [
    | some found ↦ some found
    | none ↦ some (
        dns_insight fail
          (concat (
            codes "Calico workload profile fallback found profile(s) "
            ∷ join (map (λ q. q.name) (p ∷ ps)) (codes ", ")
            ∷ codes ", but no matching Allow rule was found for DNS resolver "
            ∷ describe_resolver resolver
            ∷ codes "."
            ∷ []))
          (concat (
            codes
              "Primary issue: Calico workload profile fallback default-denies DNS egress to runtime resolver "
            ∷ describe_resolver resolver
            ∷ codes "."
            ∷ [])))
  ]

  unfoldable pub calico_dns_profile_fallback_decision :
      List (Item F) → Namespace → Pod → Option Insight
  unfolding profiles_verdict calico_profiles_for_pod
  calico_dns_profile_fallback_decision profiles namespace source =
      profiles_verdict source (calico_profiles_for_pod F W profiles namespace source)
