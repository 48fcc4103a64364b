-- ===== src/Istio/Traffic/Weighted.antt =====
-- inspectIstioWeightedRouteRisks (internal/check/istio_traffic.go): a route that splits its traffic over
-- destinations of which some are broken.
pub mod Laws
pub mod Shares
use kube_net_mods.Prelude.{
  ℕ, Bool, true, false, not, ◌||◌, ◌&&◌, ◌==◌, leb, List, [], ◌∷◌, ◌++◌, Option, none, some, Str,
  codes, is_empty, if◌then◌else◌, sort_strings, ℤ, is_pos, quote, decimal, join, sprintf, length,
}
use kube_net_mods.Model.{Report, warn, add, diagnose}
use kube_net_mods.Cluster.{Labels, Pod, Service, Selectors}
use kube_net_mods.Native.Path.{service_name}
use kube_net_mods.Calico.Value.{Floats}
use kube_net_mods.Istio.Request.{Urls, ServiceOptions, Request, new_request}
use kube_net_mods.Istio.Matching.{Regexps}
use kube_net_mods.Istio.Client.{
  Answer, items, not_found, failed, list_istio_configs, istio_config_namespaces,
  istio_service_path_virtual_services, istio_service_path_destination_rules, add_istio_list_warning,
}
use kube_net_mods.Istio.Config.{TlsMode, VirtualService, DestinationRule}
use kube_net_mods.Istio.Traffic.{
  RouteDestination, route_text, match_suffix, istio_host_matches_service, find_destination_rule,
  destination_rule_subset_labels, ready_pod_label_values_for_keys, ready_pods_matching_labels,
  istio_virtual_service_hosts_service, istio_route_destination_groups,
}
use kube_net_mods.Istio.Traffic.Routing.{
  Configs, config_name, traffic_layer, has_target_backend_diagnosis,
}
use kube_net_mods.Istio.Mtls.{
  EffectiveMode, MtlsMode, is_strict, effective_peer_authentication_for_pods,
  destination_rule_tls_mode_for_subset,
}
use kube_net_mods.Istio.Mtls.Checks.{Peers, tls_text, is_istio_mutual}

-- What one destination of a split is.
pub data Share : Type 0 where
  ignored : Share
  good bad : Str → Share

-- The TLS mode that a client sets against a strict workload
abbrev pub conflict : MtlsMode → Option TlsMode → Option TlsMode
conflict mode none = none
conflict mode (some tls) = if is_strict mode && not (is_istio_mutual tls) then some tls else none

module _ (K : Selectors) (service : Service) (pods : List Pod) (mode : MtlsMode)
    (service_port : ℤ) where
  open K use {set_string}

  unready : RouteDestination → Labels → Str
  unfolding sprintf decimal ready_pod_label_values_for_keys
  unready dest labels =
      let observed = ready_pod_label_values_for_keys pods labels in
      sprintf (codes "subset %q with weight %d has no ready pods matching %s")
        (dest.subset ∷ decimal dest.weight ∷ set_string labels ∷ [])
      ++ (if is_empty observed then [] else codes " (ready pod values: " ++ observed ++ codes ")")

  abbrev share_of_pods : RouteDestination → Labels → Share
  share_of_pods dest labels =
      if ready_pods_matching_labels K pods labels == 0
      then bad (unready dest labels)
      else good (
          sprintf (codes "subset %q with weight %d matches ready pods with %s")
            (dest.subset ∷ decimal dest.weight ∷ set_string labels ∷ []))

  -- One round of the loop of classifyIstioWeightedDestinations.
  unfoldable pub share_of : List DestinationRule → Str → RouteDestination → Share
  unfolding istio_host_matches_service find_destination_rule destination_rule_subset_labels
      destination_rule_tls_mode_for_subset ready_pods_matching_labels sprintf decimal unready
  share_of rules namespace dest =
      if not (is_pos dest.weight)
        || not (istio_host_matches_service dest.host namespace (some service))
        || is_empty dest.subset
      then ignored
      else elim (find_destination_rule rules dest.host namespace (some service)) [
        | none ↦ bad (
            sprintf (codes "subset %q with weight %d has no matching DestinationRule")
              (dest.subset ∷ decimal dest.weight ∷ []))
        | some rule ↦
            let name = config_name rule.namespace rule.name in
            elim (destination_rule_subset_labels rule dest.subset) [
              | none ↦ bad (
                  sprintf (codes "subset %q with weight %d is missing from DestinationRule %q")
                    (dest.subset ∷ decimal dest.weight ∷ name ∷ []))
              | some labels ↦
                  elim (conflict mode
                    (destination_rule_tls_mode_for_subset rule dest.subset service_port)) [
                      | some tls ↦ bad (
                          sprintf
                            (codes
                              "subset %q with weight %d sets DestinationRule %q TLS mode %s while target mTLS is STRICT")
                            (dest.subset ∷ decimal dest.weight ∷ name ∷ tls_text tls ∷ []))
                      | none ↦ share_of_pods dest labels
                    ]
            ]
      ]

  abbrev pub put_share : Share → List Str × List Str → List Str × List Str
  put_share ignored shares = shares
  put_share (good text) (goods, bads) = (text ∷ goods, bads)
  put_share (bad text) (goods, bads) = (goods, text ∷ bads)

  unfoldable pub shares : List DestinationRule → Str → List RouteDestination → List Str × List Str
  unfolding share_of
  shares rules namespace [] = ([], [])
  shares rules namespace (dest ∷ dests) =
      put_share (share_of rules namespace dest) (shares rules namespace dests)

  unfoldable pub classify_istio_weighted_destinations :
      List DestinationRule → Str → List RouteDestination → List Str × List Str
  unfolding shares sort_strings
  classify_istio_weighted_destinations rules namespace dests =
      let found = shares rules namespace dests in (sort_strings found.0, sort_strings found.1)

  unfoldable pub weighted_report : Report → Str → RouteDestination → List Str × List Str → Report
  unfolding add diagnose sprintf join service_name route_text
  weighted_report report vs dest (goods, bads) =
      let via = route_text dest.route_name dest.route_num in
      let suffix = match_suffix dest.match_text in
      let good_text = join goods (codes "; ") in
      let bad_text = join bads (codes "; ") in
      diagnose
        (add report traffic_layer (vs ++ codes " weighted destinations") warn (
          sprintf
            (codes
              "VirtualService %s %s%s splits traffic across weighted destinations. Healthy destination(s): %s. Risky destination(s): %s.")
            (vs ∷ via ∷ suffix ∷ good_text ∷ bad_text ∷ [])))
        (sprintf
          (codes
            "Primary issue candidate: Istio VirtualService %q %s%s splits traffic across weighted destinations, and %s. This can cause intermittent 503 responses even when some probes pass through healthy destination(s): %s.")
          (vs ∷ via ∷ suffix ∷ bad_text ∷ good_text ∷ []))

  -- The first group with good and bad destinations
  unfoldable pub group_risk :
      List DestinationRule
      → Str
      → List (List RouteDestination)
      → Option (RouteDestination × (List Str × List Str))
  unfolding classify_istio_weighted_destinations
  group_risk rules namespace [] = none
  group_risk rules namespace ([] ∷ groups) = group_risk rules namespace groups
  group_risk rules namespace ((dest ∷ dests) ∷ groups) =
      let later = group_risk rules namespace groups in
      let found = classify_istio_weighted_destinations rules namespace (dest ∷ dests) in
      if is_empty dests || is_empty found.0 || is_empty found.1 then later else some (dest, found)

  module _ {F : Floats} (R : Regexps) (rules : List DestinationRule) (request : Request) where
    unfoldable pub first_risk : Report → List (VirtualService F) → Report × Bool
    unfolding group_risk weighted_report istio_virtual_service_hosts_service
        istio_route_destination_groups
    first_risk report [] = (report, false)
    first_risk report (vs ∷ rest) =
        let later = first_risk report rest in
        if not (istio_virtual_service_hosts_service vs (some service))
        then later
        else elim (group_risk rules vs.namespace (istio_route_destination_groups R K request vs)) [
          | none ↦ later
          | some (dest, found) ↦
              (weighted_report report (config_name vs.namespace vs.name) dest found, true)
        ]

-- `none` is the panic of newIstioHTTPRequest.
unfoldable pub inspect_istio_weighted_route_risks :
    {F : Floats}
    → Selectors
    → Peers
    → Regexps
    → Configs F
    → Urls
    → ServiceOptions
    → Service
    → List Pod
    → Option Pod
    → Str
    → Report
    → Option (Report × Bool)
unfolding first_risk new_request list_istio_configs istio_config_namespaces
    istio_service_path_virtual_services istio_service_path_destination_rules add_istio_list_warning
    has_target_backend_diagnosis effective_peer_authentication_for_pods
inspect_istio_weighted_route_risks K peers R configs urls opts service pods source raw_url report =
    let namespaces = istio_config_namespaces opts source in
    let peer =
      effective_peer_authentication_for_pods peers.authentications K peers.root_namespace
        (some service) opts.service_port pods in
    if not configs.connected || is_empty raw_url || has_target_backend_diagnosis report
    then some (report, false)
    else elim (list_istio_configs configs.virtual_services namespaces) [
      | not_found ↦ some (report, false)
      | failed error ↦
          some (add_istio_list_warning report traffic_layer (codes "virtual services") error, false)
      | items services ↦ elim (list_istio_configs configs.destination_rules namespaces) [
        | not_found ↦ some (report, false)
        | failed error ↦
            some
              (add_istio_list_warning report traffic_layer (codes "destination rules") error, false)
        | items rules ↦ elim (new_request urls opts (some service) source raw_url) [
          | none ↦ none
          | some request ↦ some (
              first_risk K service pods peer.mode report.target.service_port R
                (istio_service_path_destination_rules opts source rules) request report
                (istio_service_path_virtual_services opts source services))
        ]
      ]
    ]
