-- ===== src/Calico/Dns.antt =====
-- The decision for a pod's DNS traffic (internal/policy/calico/analyze.go, analyzeDNSEgress and what it
-- calls).
pub mod Chain
pub mod Profiles
pub mod Decision
use kube_net_mods.Prelude.{
  ℕ, ◌+◌, Bool, true, false, not, ◌||◌, ◌&&◌, List, [], ◌∷◌, ◌++◌, map, Option, none, some, Str,
  codes, str_eq, is_empty, if◌then◌else◌, any, ℤ, pos, has_prefix, to_lower, quote, digits, join,
  concat,
}
use kube_net_mods.Model.{Status, pass, fail, warn}
use kube_net_mods.Cluster.{Pod, Namespace, Service}
use kube_net_mods.Native.Names.{unique_strings}
use kube_net_mods.Native.Path.{Insight}
use kube_net_mods.Calico.Value.{
  Floats, Value, object, Fields, Item, get, has_fields, as_object, nested_list,
}
use kube_net_mods.Calico.Ports.{PortCandidate, calico_entity_ports_match}
use kube_net_mods.Calico.Entity.{calico_entity_matches_pod}
use kube_net_mods.Calico.Paths.{World, egress, protocol_text}
use kube_net_mods.Calico.Order.{
  RuleMatch, sort_rule_matches, Effective, no_match, decided, passed, out_of_fuel, is_pass,
  next_tier,
}
use kube_net_mods.Calico.Decision.{
  action_of, calico_policy_tier, calico_policy_order, calico_tier_order, calico_policy_display_name,
  calico_policy_names, policies_for_any_pod,
}

-- DNSContext
pub record DnsContext : Type 0 where
  pub nameservers : List Str
  pub core_dns_service_ip : Str
  pub core_dns_pods : List Pod
  pub node_local_dns_pods : List Pod
  pub kube_system : Option Namespace

unfoldable pub is_node_local_resolver : Str → Bool
unfolding has_prefix
is_node_local_resolver resolver =
    has_prefix resolver (codes "169.254.") || has_prefix resolver (codes "fe80:")

unfoldable pub describe_resolver : Str → Str
unfolding is_node_local_resolver
describe_resolver resolver =
    if is_node_local_resolver resolver
    then resolver ++ codes " (NodeLocalDNS/link-local)"
    else resolver

abbrev is_core_dns : Str → DnsContext → Bool
is_core_dns resolver dns =
    not (is_empty dns.core_dns_service_ip) && str_eq resolver dns.core_dns_service_ip

unfoldable pub dns_pods_for_resolver : Str → DnsContext → List Pod
unfolding is_node_local_resolver str_eq
dns_pods_for_resolver resolver dns =
    if is_node_local_resolver resolver
    then dns.node_local_dns_pods
    else if is_core_dns resolver dns
    then dns.core_dns_pods
    else if any (λ pod. str_eq pod.pod_ip resolver) dns.core_dns_pods
    then dns.core_dns_pods
    else if any (λ pod. str_eq pod.pod_ip resolver) dns.node_local_dns_pods
    then dns.node_local_dns_pods
    else []

abbrev pub dns_insight : Status → Str → Str → Insight
dns_insight status message diagnosis = record {
  provider = codes "Calico";
  layer = codes "Calico DNS Policy Path";
  check = codes "source DNS egress";
  status = status;
  message = message;
  diagnosis = diagnosis;
}

abbrev namespace_or_default : Option Namespace → Namespace
namespace_or_default none = record { name = codes "kube-system"; labels = [] }
namespace_or_default (some namespace) = namespace

-- The pod and the Service that stand for the resolver.
abbrev fake_resolver_pod : Str → Str → Pod
fake_resolver_pod resolver namespace = record {
  name = codes "runtime-dns-resolver";
  namespace = namespace;
  labels = [];
  annotations = [];
  pod_ip = resolver;
  phase = [];
  conditions = [];
  service_account = [];
  containers = [];
}

abbrev fake_service : Str → DnsContext → Option Service
fake_service resolver dns =
    if is_core_dns resolver dns
    then some record {
      name = codes "kube-dns";
      namespace = codes "kube-system";
      kind = [];
      cluster_ip = dns.core_dns_service_ip;
      external_name = [];
      selector = [];
      ports = [];
    }
    else none

abbrev namespace_of : Namespace → Pod → Namespace
namespace_of namespace pod =
    if not (is_empty pod.namespace) && not (str_eq pod.namespace namespace.name)
    then record { name = pod.namespace; labels = [] }
    else namespace

module _ (F : Floats) where
  -- The first match, or what follows it when it is a Pass: one step, unlike the decision for a path.
  unfoldable pub dns_effective : List (RuleMatch F) → Effective F
  unfolding str_eq
  dns_effective [] = no_match
  dns_effective (m ∷ ms) =
      if is_pass F m
      then elim (next_tier F ms m) [ none ↦ passed m | some n ↦ decided n ]
      else decided m

  module _ (W : World F) where
    unfoldable pub calico_dns_protocol_matches : Fields F → Bool
    unfolding protocol_text str_eq
    calico_dns_protocol_matches rule =
        let proto = protocol_text F W (get F rule (codes "protocol")) in
        is_empty proto
        || str_eq proto (codes "<nil>")
        || str_eq proto (codes "udp")
        || str_eq proto (codes "tcp")

    module _ (resolver : Str) (dns : DnsContext) where
      -- The pods behind the resolver in turn
      any_dns_pod : Fields F → List Pod → Bool × Str
      unfolding calico_entity_matches_pod str_eq
      any_dns_pod entity [] =
          (false, codes "destination criteria do not match the source pod runtime DNS resolver")
      any_dns_pod entity (pod ∷ pods) =
          let namespace = namespace_of (namespace_or_default dns.kube_system) pod in
          let result =
            calico_entity_matches_pod F W.netip W.print W.parse entity namespace pod
              (fake_service resolver dns) W.network_sets W.service_accounts in
          let later = any_dns_pod entity pods in if result.0 then result else later

      destination_matches : Option (Fields F) → Bool × Str
      unfolding any_dns_pod calico_entity_matches_pod dns_pods_for_resolver str_eq
      destination_matches none = (true, codes "no destination criteria, matches DNS resolver")
      destination_matches (some entity) =
          let namespace = namespace_or_default dns.kube_system in
          let result =
            calico_entity_matches_pod F W.netip W.print W.parse entity namespace
              (fake_resolver_pod resolver namespace.name) (fake_service resolver dns) W.network_sets
              W.service_accounts in
          if not (has_fields F entity)
          then (true, codes "no destination criteria, matches DNS resolver")
          else if result.0
          then result
          else any_dns_pod entity (dns_pods_for_resolver resolver dns)

      unfoldable pub rule_matches_dns_resolver : Fields F → Bool × Str
      unfolding calico_dns_protocol_matches calico_entity_ports_match destination_matches
      rule_matches_dns_resolver rule =
          let entity = as_object F (get F rule (codes "destination")) in
          if not (calico_dns_protocol_matches rule)
          then (false, codes "rule protocol does not match DNS UDP/TCP")
          else if not
              (calico_entity_ports_match F entity (record { number = pos 53; name = [] } ∷ []))
          then (false, codes "DNS port 53 is not allowed by port/notPort criteria")
          else destination_matches entity

      -- The matching rules of one policy, from `index`, without those that log.
      dns_rules : List (Item F) → Item F → ℕ → List (Value F) → List (RuleMatch F)
      unfolding rule_matches_dns_resolver calico_policy_tier calico_tier_order calico_policy_order
          calico_policy_display_name str_eq to_lower
      dns_rules tiers item index [] = []
      dns_rules tiers item index (object rule ∷ rules) =
          let result = rule_matches_dns_resolver rule in
          let action = action_of F W rule in
          let tier = calico_policy_tier F item in
          let later = dns_rules tiers item (index + 1) rules in
          if not result.0 || str_eq action (codes "log")
          then later
          else record {
            policy = calico_policy_display_name F item;
            tier = tier;
            tier_order = calico_tier_order F tier tiers;
            policy_order = calico_policy_order F item;
            rule_index = index;
            action = action;
            reason = result.1;
          }
            ∷ later
      dns_rules tiers item index (_ ∷ rules) = dns_rules tiers item (index + 1) rules

      unfoldable pub dns_rules_all : List (Item F) → List (Item F) → List (RuleMatch F)
      unfolding dns_rules
      dns_rules_all tiers [] = []
      dns_rules_all tiers (item ∷ items) =
          dns_rules tiers item 1 (nested_list F item.spec (codes "egress"))
          ++ dns_rules_all tiers items
