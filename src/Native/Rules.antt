-- ===== src/Native/Rules.antt =====
-- The rules and policies of internal/policy/native/native.go.
use kube_net_mods.Prelude.{
  Bool, true, false, ◌&&◌, not, List, [], Option, none, some, Str, codes, str_eq, any, keep, map, ℤ,
  is_empty, if◌then◌else◌, sort_strings,
}
use kube_net_mods.Cluster.{Pod, Namespace, Service, Selectors, Netip}
use kube_net_mods.Native.Names.{unique_strings}
use kube_net_mods.Native.Ports.{PolicyPort, ports_allow}
use kube_net_mods.Native.Peers.{IpBlock, ip_block_contains, Peer, selects, peer_matches_pod}

pub data PolicyType : Type 0 where
  ingress egress : PolicyType

abbrev policy_type_eq : PolicyType → PolicyType → Bool
policy_type_eq ingress ingress = true
policy_type_eq egress egress = true
policy_type_eq _ _ = false

-- The cluster IP of the service, if it has one.
abbrev pub service_ip : Option Service → Str
service_ip none = []
service_ip (some service) =
    if not (str_eq service.cluster_ip (codes "None")) then service.cluster_ip else []

module _ (K : Selectors) where
  open K use {LabelSelector}

  -- networkingv1.NetworkPolicyIngressRule and NetworkPolicyEgressRule: `peers` is From or To.
  pub record Rule : Type 0 where
    pub ports : List PolicyPort
    pub peers : List (Peer K)

  pub record NetworkPolicy : Type 0 where
    pub name : Str
    pub namespace : Str
    pub pod_selector : LabelSelector
    pub policy_types : List PolicyType
    pub ingress_rules : List Rule
    pub egress_rules : List Rule

  unfoldable pub policy_selects_pod : NetworkPolicy → Pod → Bool
  policy_selects_pod netpol pod = selects K netpol.pod_selector pod.labels

  unfoldable pub policy_names_selecting_pods : List NetworkPolicy → List Pod → List Str
  unfolding policy_selects_pod sort_strings
  policy_names_selecting_pods policies pods =
      sort_strings (map (λ p. p.name) (keep (λ p. any (policy_selects_pod p) pods) policies))

  listed_type : List PolicyType → PolicyType → Bool
  listed_type types wanted = any (λ current. policy_type_eq current wanted) types

  unfoldable pub has_policy_type : NetworkPolicy → PolicyType → Bool
  unfolding listed_type
  has_policy_type netpol ingress =
      if is_empty netpol.policy_types then true else listed_type netpol.policy_types ingress
  has_policy_type netpol egress =
      if is_empty netpol.policy_types
      then not (is_empty netpol.egress_rules)
      else listed_type netpol.policy_types egress

  abbrev any_rule_allows_ports : List ℤ → List Rule → Bool
  any_rule_allows_ports ports rules = any (λ rule. ports_allow rule.ports ports) rules

  unfoldable pub any_rule_mentions_port : List NetworkPolicy → Str → List ℤ → Bool
  any_rule_mentions_port policies direction ports =
      any
        (λ netpol.
          any_rule_allows_ports ports (
            if str_eq direction (codes "egress")
            then netpol.egress_rules
            else netpol.ingress_rules))
        policies

  unfoldable pub policy_names : List NetworkPolicy → List Str
  unfolding unique_strings
  policy_names policies = unique_strings (map (λ p. p.name) policies)

  module _ (N : Netip) where
    abbrev pub pod_in_block : Option IpBlock → Pod → Bool
    pod_in_block block pod = not (is_empty pod.pod_ip) && ip_block_contains N block pod.pod_ip

    -- The two tests of the loop over the target pods.
    abbrev pub pod_allows : Namespace → Str → Peer K → Pod → Bool
    pod_allows target_namespace policy_namespace peer pod =
        if peer_matches_pod K peer pod target_namespace policy_namespace
        then true
        else pod_in_block peer.ip_block pod

    abbrev pub egress_peer_allows : Namespace → List Pod → Str → Str → Peer K → Bool
    egress_peer_allows target_namespace targets cluster_ip policy_namespace peer =
        if not (is_empty cluster_ip) && ip_block_contains N peer.ip_block cluster_ip
        then true
        else any (pod_allows target_namespace policy_namespace peer) targets

    unfoldable pub egress_rule_allows :
        Rule → Namespace → List Pod → Option Service → List ℤ → Str → Bool
    egress_rule_allows rule target_namespace targets service ports policy_namespace =
        if not (ports_allow rule.ports ports)
        then false
        else if is_empty rule.peers
        then true
        else any (egress_peer_allows target_namespace targets (service_ip service) policy_namespace)
            rule.peers

    abbrev pub ingress_peer_allows : Pod → Namespace → Peer K → Bool
    ingress_peer_allows source source_namespace peer =
        if peer_matches_pod K peer source source_namespace []
        then true
        else pod_in_block peer.ip_block source

    unfoldable pub ingress_rule_allows : Rule → Pod → Namespace → List ℤ → Bool
    ingress_rule_allows rule source source_namespace ports =
        if not (ports_allow rule.ports ports)
        then false
        else if is_empty rule.peers
        then true
        else any (ingress_peer_allows source source_namespace) rule.peers
