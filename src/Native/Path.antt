-- ===== src/Native/Path.antt =====
-- internal/check/service_policy.go: what the native policies say about a source and a target, and the
-- ports that a connection through a Service uses.
pub mod Verdict
use kube_net_mods.Prelude.{
  Bool, true, false, ◌||◌, ◌&&◌, not, List, [], ◌∷◌, ◌++◌, Option, none, some, Str, codes, str_eq,
  any, keep, find, map, ℤ, int_eq, int_leb, is_pos, pos, is_empty, if◌then◌else◌, concat, quote,
  join,
}
use kube_net_mods.Model.{
  Report, Status, pass, fail, warn, info, skip, add, add_categorized, diagnose,
}
use kube_net_mods.Cluster.{
  Pod, Namespace, Service, ServicePort, IntOrString, int_value, string_value, ContainerPort,
  Selectors, Netip,
}
use kube_net_mods.Native.Names.{unique_strings, format_ports}
use kube_net_mods.Native.Ports.{int32_port_from_int}
use kube_net_mods.Native.Rules.{
  Rule, NetworkPolicy, ingress, egress, policy_selects_pod, has_policy_type, policy_names,
  egress_rule_allows, ingress_rule_allows,
}

-- internal/policy/types.go
pub record Insight : Type 0 where
  pub provider : Str
  pub layer : Str
  pub check : Str
  pub status : Status
  pub message : Str
  pub diagnosis : Str

add_insight : Report → Insight → Report
add_insight report insight =
    let added = add report insight.layer insight.check insight.status insight.message in
    if is_empty insight.diagnosis then added else diagnose added insight.diagnosis

unfoldable pub add_insights : Report → List Insight → Report
unfolding add_insight
add_insights report [] = report
add_insights report (insight ∷ insights) = add_insights (add_insight report insight) insights

unfoldable pub service_name : Option Service → Str
service_name none = codes "(unknown service)"
service_name (some service) = service.namespace ++ codes "/" ++ service.name

abbrev path_layer : Str
path_layer = codes "NetworkPolicy Path Analysis"

abbrev egress_check : Str
egress_check = codes "source egress to target"

abbrev ingress_check : Str
ingress_check = codes "target ingress from source"

abbrev names_text : List Str → Str
names_text names = join names (codes ", ")

module _ (K : Selectors) (N : Netip) where
  module _ (source : Pod) (target_namespace : Namespace) (targets : List Pod)
      (service : Option Service) (ports : List ℤ) where
    -- The policies that isolate the source for egress, and whether a rule of one allows the path.
    abbrev pub isolates_source : NetworkPolicy K → Bool
    isolates_source netpol = policy_selects_pod K netpol source && has_policy_type K netpol egress

    abbrev pub allows_target : NetworkPolicy K → Bool
    allows_target netpol =
        any
          (λ rule.
            egress_rule_allows K N rule target_namespace targets service ports source.namespace)
          netpol.egress_rules

    egress_verdict : Report → List (NetworkPolicy K) → List Str → Report
    egress_verdict report [] reasons = add report path_layer egress_check pass (
        concat (
          codes "No egress NetworkPolicies select source pod "
          ∷ quote source.name
          ∷ codes "."
          ∷ []))
    egress_verdict report (p ∷ ps) [] =
        let names = names_text (policy_names K (p ∷ ps)) in
        diagnose
          (add_categorized report path_layer egress_check warn (codes "policy-ambiguous") (
            concat (
              codes "Source pod "
              ∷ quote source.name
              ∷ codes " is egress-isolated by NetworkPolicy ("
              ∷ names
              ∷ codes "), and no rule obviously allows target namespace "
              ∷ quote target_namespace.name
              ∷ codes " on TCP port(s) "
              ∷ format_ports ports
              ∷ codes "."
              ∷ [])))
          (concat (
            codes "Primary issue: native egress NetworkPolicy default-deny blocks source pod "
            ∷ quote (source.namespace ++ codes "/" ++ source.name)
            ∷ codes " from Service "
            ∷ quote (service_name service)
            ∷ codes " on TCP port(s) "
            ∷ format_ports ports
            ∷ codes ". Selected policy/policies: "
            ∷ names
            ∷ codes "."
            ∷ []))
    egress_verdict report (p ∷ ps) (r ∷ rs) = add report path_layer egress_check pass (
        concat (
          codes
            "Source egress NetworkPolicy appears to allow this target path. Matching policy/rule found in: "
          ∷ names_text (unique_strings (r ∷ rs))
          ∷ codes "."
          ∷ []))

    unfoldable pub analyze_native_egress : Report → List (NetworkPolicy K) → Report
    unfolding egress_verdict
    analyze_native_egress report policies =
        let selecting = keep isolates_source policies in
        egress_verdict report selecting (map (λ p. p.name) (keep allows_target selecting))

  module _ (source : Pod) (source_namespace : Namespace) (targets : List Pod)
      (service : Option Service) (ports : List ℤ) where
    abbrev pub isolates_target : NetworkPolicy K → Bool
    isolates_target netpol =
        has_policy_type K netpol ingress && any (policy_selects_pod K netpol) targets

    abbrev pub allows_source : NetworkPolicy K → Bool
    allows_source netpol =
        any (λ rule. ingress_rule_allows K N rule source source_namespace ports)
          netpol.ingress_rules

    ingress_verdict : Report → List (NetworkPolicy K) → List Str → Report
    ingress_verdict report [] reasons =
        add report path_layer ingress_check pass
          (codes "No ingress NetworkPolicies select the target pods.")
    ingress_verdict report (p ∷ ps) [] =
        let names = names_text (policy_names K (p ∷ ps)) in
        diagnose
          (add_categorized report path_layer ingress_check warn (codes "policy-ambiguous") (
            concat (
              codes "Target pods are ingress-isolated by NetworkPolicy ("
              ∷ names
              ∷ codes "), and no rule obviously allows source namespace "
              ∷ quote source_namespace.name
              ∷ codes " on TCP port(s) "
              ∷ format_ports ports
              ∷ codes "."
              ∷ [])))
          (concat (
            codes "Primary issue: native ingress NetworkPolicy default-deny blocks source pod "
            ∷ quote (source.namespace ++ codes "/" ++ source.name)
            ∷ codes " from Service "
            ∷ quote (service_name service)
            ∷ codes " on TCP port(s) "
            ∷ format_ports ports
            ∷ codes ". Selected policy/policies: "
            ∷ names
            ∷ codes "."
            ∷ []))
    ingress_verdict report (p ∷ ps) (r ∷ rs) = add report path_layer ingress_check pass (
        concat (
          codes "Target ingress NetworkPolicy appears to allow source pod "
          ∷ quote source.name
          ∷ codes ". Matching policy/rule found in: "
          ∷ names_text (unique_strings (r ∷ rs))
          ∷ codes "."
          ∷ []))

    unfoldable pub analyze_native_ingress : Report → List (NetworkPolicy K) → Report
    unfolding ingress_verdict
    analyze_native_ingress report policies =
        let selecting = keep isolates_target policies in
        ingress_verdict report selecting (map (λ p. p.name) (keep allows_source selecting))
