-- ===== src/Istio/Traffic/Intentional/Inspect.antt =====
-- The loop of inspectIstioIntentionalRouteBehavior (internal/check/istio_traffic.go).
use kube_net_mods.Prelude.{
  ℕ, ◌+◌, not, ◌||◌, List, [], ◌∷◌, Option, none, some, Str, codes, str_eq, is_empty, if◌then◌else◌,
  any, ℤ,
}
use kube_net_mods.Model.{Report, add, diagnose}
use kube_net_mods.Cluster.{Pod, Service, Selectors}
use kube_net_mods.Runtime.Probe.{HttpResult}
use kube_net_mods.Calico.Value.{Floats}
use kube_net_mods.Istio.Request.{Urls, ServiceOptions, Request, new_request}
use kube_net_mods.Istio.Matching.{Regexps, istio_http_route_match_text}
use kube_net_mods.Istio.Client.{
  items, not_found, failed, list_istio_configs, istio_config_namespaces,
  istio_service_path_virtual_services, add_istio_list_warning,
}
use kube_net_mods.Istio.Config.{HttpRoute, VirtualService}
use kube_net_mods.Istio.Traffic.{route_text, match_suffix, istio_virtual_service_hosts_service}
use kube_net_mods.Istio.Traffic.Routing.{Configs, config_name, traffic_layer}
use kube_net_mods.Istio.Traffic.Intentional.{Behavior, route_behavior}

-- The report, the ids that are reported, and the behavior that was found.
pub record Found : Type 0 where
  pub report : Report
  pub reported : List Str
  pub behavior : Option Behavior

abbrev pub nothing : Report → List Str → Found
nothing report reported = record { report = report; reported = reported; behavior = none }

module _ (F : Floats) (fixed_text : F.Float → Str) (duration_text : ℤ → Str) (R : Regexps)
    (K : Selectors) (service : Service) (result : HttpResult) where
  unfoldable pub first_behavior :
      VirtualService F → Request → ℕ → List (HttpRoute F) → Option Behavior
  unfolding route_behavior istio_http_route_match_text route_text
  first_behavior vs request num [] = none
  first_behavior vs request num (route ∷ routes) =
      let later = first_behavior vs request (num + 1) routes in
      elim (istio_http_route_match_text R K route.matches request) [
        | none ↦ later
        | some text ↦
            elim (route_behavior F fixed_text duration_text (config_name vs.namespace vs.name)
              (route_text route.name num) (match_suffix text) service result route) [
                | none ↦ later
                | some behavior ↦ some behavior
              ]
      ]

  unfoldable pub first_of_services : Request → List (VirtualService F) → Option Behavior
  unfolding first_behavior istio_virtual_service_hosts_service
  first_of_services request [] = none
  first_of_services request (vs ∷ rest) =
      let later = first_of_services request rest in
      if not (istio_virtual_service_hosts_service vs (some service))
      then later
      else elim (first_behavior vs request 1 vs.http) [
        | none ↦ later
        | some behavior ↦ some behavior
      ]

  -- A behavior is reported once.
  unfoldable pub behavior_report : Report → List Str → Option Behavior → Found
  unfolding add diagnose str_eq
  behavior_report report reported none = nothing report reported
  behavior_report report reported (some b) =
      if any (str_eq b.id) reported
      then record { report = report; reported = reported; behavior = some b }
      else record {
        report =
            diagnose (add report traffic_layer b.layer_check b.layer_status b.layer_message)
              b.diagnosis;
        reported = b.id ∷ reported;
        behavior = some b;
      }

  -- `none` is the panic of newIstioHTTPRequest.
  unfoldable pub inspect_istio_intentional_route_behavior :
      Configs F → Urls → ServiceOptions → Option Pod → Str → Report → List Str → Option Found
  unfolding behavior_report first_of_services new_request list_istio_configs istio_config_namespaces
      istio_service_path_virtual_services add_istio_list_warning
  inspect_istio_intentional_route_behavior configs urls opts source raw_url report reported =
      if not configs.connected || is_empty raw_url
      then some (nothing report reported)
      else elim (list_istio_configs configs.virtual_services
          (istio_config_namespaces opts source)) [
            | not_found ↦ some (nothing report reported)
            | failed error ↦ some (
                nothing
                  (add_istio_list_warning report traffic_layer (codes "virtual services") error)
                  reported)
            | items services ↦ elim (new_request urls opts (some service) source raw_url) [
              | none ↦ none
              | some request ↦ some (
                  behavior_report report reported (
                    first_of_services request
                      (istio_service_path_virtual_services opts source services)))
            ]
          ]
