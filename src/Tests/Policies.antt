-- ===== src/Tests/Policies.antt =====
-- The laws of native policies, applied to a policy that admits the client.
use kube_net_mods.Prelude.{
  ◌≡◌, refl, ◌↔◌, ◌⊎◌, true, List, [], ◌∷◌, none, some, codes, ℤ, pos, mem_here, Exists,
}
use kube_net_mods.Cluster.{int_value}
use kube_net_mods.Native.Ports.{PolicyPort, ports_allow, ports_allow_iff, IsTcp, Covers}
use kube_net_mods.Native.Peers.{
  IpBlock, Peer, peer_matches_pod, peer_matches_pod_iff, HasSelector, NamespaceOk, PodOk,
  chosen_pod,
}
use kube_net_mods.Native.Rules.{
  Rule, NetworkPolicy, service_ip, egress_rule_allows, ingress_rule_allows,
}
use kube_net_mods.Native.Allow.{Reaches, egress_rule_allows_iff, ingress_rule_any_namespace}
use kube_net_mods.Native.Path.{
  analyze_native_egress, analyze_native_ingress, isolates_source, allows_target, isolates_target,
  allows_source,
}
use kube_net_mods.Native.Path.Verdict.{
  Passed, Warned, Open, Blocked, analyze_native_egress_verdict, analyze_native_ingress_verdict,
}
use kube_net_mods.Tests.Data.{
  label_sets, text_addresses, app, client, server, shop, prod, web, empty_report,
}

abbrev tcp_8080 : PolicyPort
tcp_8080 = record { protocol = some (codes "TCP"); port = some (int_value (pos 8080)) }

abbrev ports : List ℤ
ports = pos 80 ∷ pos 8080 ∷ []

ports_allow_iff_example : (ports_allow (tcp_8080 ∷ []) ports ≡ true) ↔ (
    ((tcp_8080 ∷ []) ≡ [])
    ⊎ (ports ≡ [])
    ⊎ Exists (λ p. IsTcp p × Exists (Covers p) ports) (tcp_8080 ∷ []))
ports_allow_iff_example = ports_allow_iff (tcp_8080 ∷ []) ports

abbrev cluster_block : IpBlock
cluster_block = record { cidr = codes "10."; excepts = codes "10.0.7." ∷ [] }

abbrev clients : Peer label_sets
clients = record {
  namespace_selector = none;
  pod_selector = some (app (codes "client"));
  ip_block = none;
}

abbrev servers : Peer label_sets
servers = record {
  namespace_selector = some [];
  pod_selector = some (app (codes "web"));
  ip_block = none;
}

peer_matches_pod_iff_example :
    (peer_matches_pod label_sets servers server prod (codes "shop") ≡ true) ↔ (
      HasSelector label_sets servers
      × NamespaceOk label_sets (codes "shop") prod (some [])
      × PodOk label_sets server (some (app (codes "web"))))
peer_matches_pod_iff_example =
    peer_matches_pod_iff label_sets servers server prod (codes "shop") refl

abbrev to_servers : Rule label_sets
to_servers = record { ports = tcp_8080 ∷ []; peers = servers ∷ [] }

abbrev from_clients : Rule label_sets
from_clients = record { ports = tcp_8080 ∷ []; peers = clients ∷ [] }

egress_rule_allows_iff_example :
    (egress_rule_allows label_sets text_addresses to_servers prod
        (server ∷ [])
        (some web)
        ports
        (codes "shop")
      ≡ true)
    ↔ ((ports_allow to_servers.ports ports ≡ true)
        × ((to_servers.peers ≡ [])
            ⊎ Exists
                (Reaches label_sets text_addresses prod
                  (server ∷ [])
                  (service_ip (some web))
                  (codes "shop"))
                to_servers.peers))
egress_rule_allows_iff_example =
    egress_rule_allows_iff label_sets text_addresses to_servers prod (server ∷ []) (some web) ports
      (codes "shop") refl

-- The rule stands in a policy of "prod", and the client is in "shop".
ingress_rule_any_namespace_example :
    ingress_rule_allows label_sets text_addresses from_clients client shop ports ≡ true
unfolding ports_allow
ingress_rule_any_namespace_example =
    ingress_rule_any_namespace label_sets text_addresses from_clients client shop ports clients refl
      mem_here refl refl (chosen_pod refl)

abbrev guard : NetworkPolicy label_sets
guard = record {
  name = codes "guard";
  namespace = codes "prod";
  pod_selector = app (codes "web");
  policy_types = [];
  ingress_rules = from_clients ∷ [];
  egress_rules = to_servers ∷ [];
}

analyze_native_egress_verdict_example :
    (Warned empty_report (
        analyze_native_egress label_sets text_addresses client prod
          (server ∷ [])
          (some web)
          ports
          empty_report
          (guard ∷ []))
      ↔ Blocked
          (isolates_source label_sets text_addresses client prod (server ∷ []) (some web) ports)
          (allows_target label_sets text_addresses client prod (server ∷ []) (some web) ports)
          (guard ∷ []))
    × (Passed empty_report (
          analyze_native_egress label_sets text_addresses client prod
            (server ∷ [])
            (some web)
            ports
            empty_report
            (guard ∷ []))
        ↔ Open
            (isolates_source label_sets text_addresses client prod (server ∷ []) (some web) ports)
            (allows_target label_sets text_addresses client prod (server ∷ []) (some web) ports)
            (guard ∷ []))
analyze_native_egress_verdict_example =
    analyze_native_egress_verdict label_sets text_addresses client prod (server ∷ []) (some web)
      ports empty_report (guard ∷ [])

analyze_native_ingress_verdict_example :
    (Warned empty_report (
        analyze_native_ingress label_sets text_addresses client shop
          (server ∷ [])
          (some web)
          ports
          empty_report
          (guard ∷ []))
      ↔ Blocked
          (isolates_target label_sets text_addresses client shop (server ∷ []) (some web) ports)
          (allows_source label_sets text_addresses client shop (server ∷ []) (some web) ports)
          (guard ∷ []))
    × (Passed empty_report (
          analyze_native_ingress label_sets text_addresses client shop
            (server ∷ [])
            (some web)
            ports
            empty_report
            (guard ∷ []))
        ↔ Open
            (isolates_target label_sets text_addresses client shop (server ∷ []) (some web) ports)
            (allows_source label_sets text_addresses client shop (server ∷ []) (some web) ports)
            (guard ∷ []))
analyze_native_ingress_verdict_example =
    analyze_native_ingress_verdict label_sets text_addresses client shop (server ∷ []) (some web)
      ports empty_report (guard ∷ [])
