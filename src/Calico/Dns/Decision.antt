-- ===== src/Calico/Dns/Decision.antt =====
-- calicoDNSDecision and analyzeDNSEgress (internal/policy/calico/analyze.go).
use kube_net_mods.Prelude.{
  List, [], ◌∷◌, ◌++◌, Option, none, some, Str, codes, str_eq, is_empty, if◌then◌else◌, quote, join,
  concat,
}
use kube_net_mods.Model.{pass, fail, warn}
use kube_net_mods.Cluster.{Pod, Namespace}
use kube_net_mods.Native.Names.{unique_strings}
use kube_net_mods.Native.Path.{Insight}
use kube_net_mods.Calico.Value.{Floats, Item}
use kube_net_mods.Calico.Paths.{World, egress}
use kube_net_mods.Calico.Order.{
  RuleMatch, sort_rule_matches, no_match, decided, passed, out_of_fuel,
}
use kube_net_mods.Calico.Decision.{calico_policy_names, policies_for_any_pod}
use kube_net_mods.Calico.Dns.{
  DnsContext, describe_resolver, dns_insight, dns_rules_all, dns_effective,
}
use kube_net_mods.Calico.Dns.Profiles.{calico_dns_profile_fallback_decision}

abbrev with_message : Str → Insight → Insight
with_message before found = record found { message = before ++ found.message }

abbrev falls_through : Str → Str
falls_through diagnosis =
    if is_empty diagnosis
    then []
    else codes "Calico DNS Pass falls through to workload profile evaluation. " ++ diagnosis

module _ (F : Floats) (source : Pod) (resolver : Str) where
  first_match : RuleMatch F → Str
  unfolding concat quote
  first_match first = concat (
      codes " First match: " ∷ first.policy ∷ codes " in tier " ∷ quote first.tier ∷ codes "." ∷ [])

  denied_dns : RuleMatch F → Insight
  unfolding first_match describe_resolver concat quote
  denied_dns first =
      dns_insight fail
        (concat (
          codes "Calico denies DNS egress from source pod "
          ∷ quote source.name
          ∷ codes " to runtime resolver "
          ∷ describe_resolver resolver
          ∷ codes "."
          ∷ first_match first
          ∷ codes " Reason: "
          ∷ first.reason
          ∷ codes "."
          ∷ []))
        (concat (
          codes "Primary issue: Calico policy denies DNS egress from source pod "
          ∷ quote source.name
          ∷ codes " to its runtime resolver "
          ∷ describe_resolver resolver
          ∷ codes "."
          ∷ []))

  allowed_dns : RuleMatch F → Insight
  unfolding first_match describe_resolver concat quote
  allowed_dns first =
      dns_insight pass
        (concat (
          codes "Calico allows DNS egress from source pod "
          ∷ quote source.name
          ∷ codes " to runtime resolver "
          ∷ describe_resolver resolver
          ∷ codes "."
          ∷ first_match first
          ∷ []))
        []

  unmatched_dns : List Str → Insight
  unfolding describe_resolver concat quote join
  unmatched_dns names =
      dns_insight fail
        (concat (
          codes "Calico egress policy selects source pod "
          ∷ quote source.name
          ∷ codes ", but no allow rule obviously permits DNS to runtime resolver "
          ∷ describe_resolver resolver
          ∷ codes ". Policies: "
          ∷ join names (codes ", ")
          ∷ codes "."
          ∷ []))
        (concat (
          codes
            "Primary issue: Calico egress policy does not allow the source pod runtime DNS resolver "
          ∷ describe_resolver resolver
          ∷ codes ". Add UDP/TCP 53 egress for that resolver or adjust the pod DNS path."
          ∷ []))

  passed_dns : Option Insight → RuleMatch F → Insight
  unfolding concat quote
  passed_dns fallback first =
      let before : Str = concat (
        codes "Calico DNS egress first matching action is Pass in tier "
        ∷ quote first.tier
        ∷ codes " via "
        ∷ first.policy
        ∷ codes ". "
        ∷ []) in
      elim fallback [
        | some found ↦ record found {
          message = before ++ found.message;
          diagnosis = falls_through found.diagnosis;
        }
        | none ↦
            dns_insight warn
              (before ++ codes "No inferred workload profile decision could be made.") []
      ]

  -- An action that is neither Allow nor Deny decides nothing, a second Pass included.
  unfoldable pub dns_verdict : Option Insight → List Str → List (RuleMatch F) → Insight
  unfolding denied_dns allowed_dns unmatched_dns passed_dns dns_effective str_eq
  dns_verdict fallback names matches = elim (dns_effective F matches) [
    | no_match ↦ unmatched_dns names
    | out_of_fuel ↦ unmatched_dns names
    | passed last ↦ passed_dns fallback last
    | decided first ↦
        if str_eq first.action (codes "deny")
        then denied_dns first
        else if str_eq first.action (codes "allow")
        then allowed_dns first
        else unmatched_dns names
  ]

module _ (F : Floats) (W : World F) (dns : DnsContext) (tiers profiles : List (Item F)) where
  unfoldable pub calico_dns_decision : List (Item F) → Namespace → Pod → Str → Insight
  unfolding dns_verdict dns_rules_all sort_rule_matches calico_dns_profile_fallback_decision
      calico_policy_names
  calico_dns_decision policies namespace source resolver =
      dns_verdict F source resolver
        (calico_dns_profile_fallback_decision F W resolver dns profiles namespace source)
        (calico_policy_names F policies)
        (sort_rule_matches F (dns_rules_all F W resolver dns tiers policies))

  -- The first resolver whose traffic a profile does not pass.
  unselected_dns : Namespace → Pod → List Str → Insight
  unfolding calico_dns_profile_fallback_decision
  unselected_dns namespace source [] =
      dns_insight pass (codes "No Calico egress policies select the source pod for DNS traffic.") []
  unselected_dns namespace source (resolver ∷ resolvers) =
      let later = unselected_dns namespace source resolvers in
      elim (calico_dns_profile_fallback_decision F W resolver dns profiles namespace source) [
        | none ↦ later
        | some found ↦ elim found.status [
          | pass ↦ later
          | _ ↦
              with_message
                (codes "No Calico egress policies select the source pod for DNS traffic. ") found
        ]
      ]

  selected_dns : List (Item F) → Namespace → Pod → List Str → Insight
  unfolding calico_dns_decision unique_strings concat join
  selected_dns policies namespace source [] =
      dns_insight pass
        (concat (
          codes "Calico egress policy appears to allow source pod runtime DNS resolver(s): "
          ∷ join (unique_strings dns.nameservers) (codes ", ")
          ∷ codes "."
          ∷ []))
        []
  selected_dns policies namespace source (resolver ∷ resolvers) =
      let found = calico_dns_decision policies namespace source resolver in
      let later = selected_dns policies namespace source resolvers in
      elim found.status [ fail ↦ found | warn ↦ found | _ ↦ later ]

  unfoldable pub analyze_dns_egress : List (Item F) → List (Item F) → Namespace → Pod → List Insight
  unfolding unselected_dns selected_dns policies_for_any_pod unique_strings
  analyze_dns_egress namespaced global namespace source =
      let policies =
        policies_for_any_pod F W (namespaced ++ global) namespace (source ∷ []) egress in
      let resolvers = unique_strings dns.nameservers in
      if is_empty dns.nameservers
      then []
      else if is_empty policies
      then unselected_dns namespace source resolvers ∷ []
      else selected_dns policies namespace source resolvers ∷ []
