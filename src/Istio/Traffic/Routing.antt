-- ===== src/Istio/Traffic/Routing.antt =====
-- inspectIstioTrafficRouting (internal/check/istio_traffic.go): the route that explains why Envoy has no
-- healthy upstream.
pub mod Broken
pub mod Verdict
use kube_net_mods.Prelude.{
  Bool, true, false, not, ◌||◌, List, [], ◌∷◌, ◌++◌, Option, none, some, Str, codes, is_empty,
  if◌then◌else◌, any, ◌==◌, contains, quote, sprintf,
}
use kube_net_mods.Model.{Report, Status, warn, fail, add, diagnose}
use kube_net_mods.Cluster.{Labels, Pod, Service, Selectors}
use kube_net_mods.Native.Path.{service_name}
use kube_net_mods.Service.Endpoints.{has_diagnosis_containing}
use kube_net_mods.Calico.Value.{Floats}
use kube_net_mods.Istio.Request.{Urls, ServiceOptions, Request, new_request}
use kube_net_mods.Istio.Matching.{Regexps}
use kube_net_mods.Istio.Client.{
  Answer, items, not_found, failed, list_istio_configs, istio_config_namespaces,
  istio_service_path_virtual_services, istio_service_path_destination_rules, add_istio_list_warning,
}
use kube_net_mods.Istio.Config.{VirtualService, DestinationRule}
use kube_net_mods.Istio.Traffic.{
  RouteDestination, route_text, weight_text, match_suffix, istio_host_matches_service,
  find_destination_rule, destination_rule_subset_labels, ready_pod_label_values_for_keys,
  ready_pods_matching_labels, istio_virtual_service_hosts_service, istio_route_destinations,
}

unfoldable pub has_target_backend_diagnosis : Report → Bool
unfolding has_diagnosis_containing
has_target_backend_diagnosis report =
    has_diagnosis_containing report (codes "no target pods matched selector")
    || has_diagnosis_containing report (codes "has no ready EndpointSlice addresses")
    || has_diagnosis_containing report (codes "ready pod IPs missing from EndpointSlices")
    || has_diagnosis_containing report (codes "target pods for Service")

abbrev pub traffic_layer : Str
traffic_layer = codes "Istio Traffic Routing Layer"

-- A FAIL of this layer and its diagnosis
pub record Issue : Type 0 where
  pub check : Str
  pub message : Str
  pub diagnosis : Str

-- What the traffic checks ask the mesh for.
pub record Configs (F : Floats) : Type 0 where
  pub connected : Bool
  pub virtual_services : Str → Answer (Option (VirtualService F))
  pub destination_rules : Str → Answer (Option DestinationRule)

abbrev pub config_name : Str → Str → Str
config_name namespace name = namespace ++ codes "/" ++ name

abbrev observed : Str → Str
observed text =
    if is_empty text
    then []
    else codes " Ready backend pod label values for those keys: " ++ text ++ codes "."

module _ (K : Selectors) (service : Service) (pods : List Pod) where
  open K use {set_string}

  missing_subset : Str → RouteDestination → Issue
  unfolding sprintf service_name route_text
  missing_subset vs dest =
      let via = route_text dest.route_name dest.route_num in
      record {
        check = vs;
        message =
            sprintf
              (codes
                "VirtualService %s %s%s routes Service %q to subset %q, but no matching DestinationRule subset was found.")
              (vs ∷ via ∷ match_suffix dest.match_text ∷ service.name ∷ dest.subset ∷ []);
        diagnosis =
            sprintf
              (codes
                "Primary issue: Istio VirtualService %q %s%s routes Service %q to subset %q, but the DestinationRule subset is missing.")
              (vs
                ∷ via
                ∷ match_suffix dest.match_text
                ∷ service_name (some service)
                ∷ dest.subset
                ∷ []);
      }

  no_ready_pods : Str → Str → RouteDestination → Labels → Issue
  unfolding sprintf service_name route_text weight_text ready_pod_label_values_for_keys
  no_ready_pods vs rule dest labels =
      let via = route_text dest.route_name dest.route_num in
      let seen = observed (ready_pod_label_values_for_keys pods labels) in
      let weight = weight_text dest.weight in
      record {
        check = vs;
        message =
            sprintf
              (codes
                "VirtualService %s %s%s routes Service %q to DestinationRule %s subset %q%s, but no ready target pods match subset labels %s.")
              (vs
                ∷ via
                ∷ match_suffix dest.match_text
                ∷ service.name
                ∷ rule
                ∷ dest.subset
                ∷ weight
                ∷ set_string labels
                ∷ [])
            ++ seen;
        diagnosis =
            sprintf
              (codes
                "Primary issue: Istio VirtualService %q %s%s routes Service %q to DestinationRule %q subset %q%s, but no ready backend pods match labels %s.")
              (vs
                ∷ via
                ∷ match_suffix dest.match_text
                ∷ service_name (some service)
                ∷ rule
                ∷ dest.subset
                ∷ weight
                ∷ set_string labels
                ∷ [])
            ++ seen;
      }

  -- One destination of a VirtualService in the namespace, by the rules that are seen.
  unfoldable pub destination_issue :
      List DestinationRule → Str → Str → RouteDestination → Option Issue
  unfolding missing_subset no_ready_pods istio_host_matches_service find_destination_rule
      destination_rule_subset_labels ready_pods_matching_labels
  destination_issue rules namespace vs dest =
      if not (istio_host_matches_service dest.host namespace (some service)) || is_empty dest.subset
      then none
      else elim (find_destination_rule rules dest.host namespace (some service)) [
        | none ↦ none
        | some rule ↦ elim (destination_rule_subset_labels rule dest.subset) [
          | none ↦ some (missing_subset vs dest)
          | some labels ↦
              if ready_pods_matching_labels K pods labels == 0
              then some (no_ready_pods vs (config_name rule.namespace rule.name) dest labels)
              else none
        ]
      ]

  unfoldable pub first_destination_issue :
      List DestinationRule → Str → Str → List RouteDestination → Option Issue
  unfolding destination_issue
  first_destination_issue rules namespace vs [] = none
  first_destination_issue rules namespace vs (dest ∷ dests) =
      let later = first_destination_issue rules namespace vs dests in
      elim (destination_issue rules namespace vs dest) [ some issue ↦ some issue | none ↦ later ]

  module _ {F : Floats} (R : Regexps) (rules : List DestinationRule)
      (request : Option Request) where
    -- The first issue of the VirtualServices that host the Service; the outer `none` is the panic of
    -- newIstioHTTPRequest.
    unfoldable pub first_issue : List (VirtualService F) → Option (Option Issue)
    unfolding first_destination_issue istio_virtual_service_hosts_service istio_route_destinations
    first_issue [] = some none
    first_issue (vs ∷ rest) =
        let later = first_issue rest in
        if not (istio_virtual_service_hosts_service vs (some service))
        then later
        else elim request [
          | none ↦ none
          | some asked ↦
              elim (first_destination_issue rules vs.namespace (config_name vs.namespace vs.name)
                (istio_route_destinations R K asked vs)) [
                  | some issue ↦ some (some issue)
                  | none ↦ later
                ]
        ]

  unfoldable pub routing_verdict : Report → Option Issue → Report
  unfolding add diagnose sprintf service_name
  routing_verdict report (some issue) =
      diagnose (add report traffic_layer issue.check fail issue.message) issue.diagnosis
  routing_verdict report none =
      diagnose
        (add report traffic_layer (codes "traffic routes") warn (
          codes
            "Envoy returned no healthy upstream, but no matching VirtualService/DestinationRule subset issue was identified by static inspection."))
        (sprintf
          (codes
            "Primary issue: Envoy returned no healthy upstream for Service %q, but KubeNetMods could not identify the exact Istio route/subset object.")
          (service_name (some service) ∷ []))

  unfoldable pub verdict_or_panic : Report → Option (Option Issue) → Option Report
  unfolding routing_verdict
  verdict_or_panic report none = none
  verdict_or_panic report (some issue) = some (routing_verdict report issue)

  -- `none` is the panic of newIstioHTTPRequest. The caller gives a Service and a source.
  unfoldable pub inspect_istio_traffic_routing :
      {F : Floats}
      → Regexps
      → Configs F
      → Urls
      → ServiceOptions
      → Pod
      → Str
      → Report
      → Option Report
  unfolding verdict_or_panic first_issue new_request list_istio_configs istio_config_namespaces
      istio_service_path_virtual_services istio_service_path_destination_rules
      add_istio_list_warning has_target_backend_diagnosis
  inspect_istio_traffic_routing R configs urls opts source raw_url report =
      let namespaces = istio_config_namespaces opts (some source) in
      if not configs.connected || has_target_backend_diagnosis report
      then some report
      else elim (list_istio_configs configs.virtual_services namespaces) [
        | not_found ↦ some report
        | failed error ↦
            some (add_istio_list_warning report traffic_layer (codes "virtual services") error)
        | items services ↦ elim (list_istio_configs configs.destination_rules namespaces) [
          | not_found ↦ some report
          | failed error ↦
              some (add_istio_list_warning report traffic_layer (codes "destination rules") error)
          | items rules ↦ verdict_or_panic report (
              first_issue R (istio_service_path_destination_rules opts (some source) rules)
                (new_request urls opts (some service) (some source) raw_url)
                (istio_service_path_virtual_services opts (some source) services))
        ]
      ]
