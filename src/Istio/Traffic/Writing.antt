-- ===== src/Istio/Traffic/Writing.antt =====
-- The writes of the inspections of the routes (internal/check/istio_traffic.go).
use kube_net_mods.Prelude.{
  not, ◌||◌, ◌≡◌, ◌≢◌, refl, inl, inr, List, [], ◌∷◌, Option, none, some, Str, Option-cases,
  Bool-cases, is_empty, any, str_eq, ℤ,
}
use kube_net_mods.Model.{Report, warn, fail}
use kube_net_mods.Model.Laws.{Writes}
use kube_net_mods.Model.Steps.{told-Writes, Ends}
use kube_net_mods.Cluster.{Pod, Service, Selectors}
use kube_net_mods.Calico.Value.{Floats}
use kube_net_mods.Runtime.Probe.{HttpResult}
use kube_net_mods.Istio.Request.{Urls, ServiceOptions, Request, new_request}
use kube_net_mods.Istio.Matching.{Regexps}
use kube_net_mods.Istio.Client.{
  list_istio_configs, istio_config_namespaces, istio_service_path_virtual_services,
  istio_service_path_destination_rules,
}
use kube_net_mods.Istio.Client.Laws.{Answer-cases}
use kube_net_mods.Istio.Config.{VirtualService, DestinationRule}
use kube_net_mods.Istio.Traffic.{
  istio_virtual_service_hosts_service, istio_route_destinations, istio_route_destination_groups,
}
use kube_net_mods.Istio.Traffic.Routing.{
  Issue, Configs, config_name, first_destination_issue, first_issue, routing_verdict,
  verdict_or_panic, has_target_backend_diagnosis, inspect_istio_traffic_routing,
}
use kube_net_mods.Istio.Traffic.Weighted.{
  weighted_report, group_risk, first_risk, inspect_istio_weighted_route_risks,
}
use kube_net_mods.Istio.Traffic.Intentional.{Behavior}
use kube_net_mods.Istio.Traffic.Intentional.Inspect.{
  behavior_report, inspect_istio_intentional_route_behavior,
}
use kube_net_mods.Istio.Mtls.{MtlsMode, effective_peer_authentication_for_pods}
use kube_net_mods.Istio.Mtls.Checks.{Peers}
use kube_net_mods.Istio.Authz.Writing.{list_warning-Writes}

module _ (K : Selectors) (service : Service) (pods : List Pod) where
  module _ {F : Floats} (R : Regexps) (rules : List DestinationRule) where
    pub first_issue-some :
        (request : Option Request) (services : List (VirtualService F))
        → request ≢ none
        → (issue : Option Issue) × (first_issue K service pods R rules request services
            ≡ some issue)
    unfolding first_issue
    first_issue-some request [] given = (none, refl)
    first_issue-some none (vs ∷ rest) given = absurd (given refl)
    first_issue-some (some asked) (vs ∷ rest) given =
        let (issue, e) = first_issue-some (some asked) rest given in
        elim (Bool-cases (istio_virtual_service_hosts_service vs (some service))) [
          | inr h ↦ (issue, rw (h, first_issue) e)
          | inl h ↦
              elim (Option-cases (
                first_destination_issue K service pods rules vs.namespace
                  (config_name vs.namespace vs.name) (istio_route_destinations R K asked vs))) [
                    | inl k ↦ (issue, rw (h, k, first_issue) e)
                    | inr (own, k) ↦ (some own, rw (h, k, first_issue) refl)
                  ]
        ]

  verdict-Writes :
      {r s : Report} (issue : Option Issue)
      → Writes r s
      → Writes r (routing_verdict K service pods s issue)
  unfolding routing_verdict
  verdict-Writes none w = told-Writes _ _ warn _ _ w
  verdict-Writes (some issue) w = told-Writes _ _ fail _ _ w

  pub routing-Ends :
      {F : Floats} {r s : Report} (R : Regexps) (configs : Configs F) (urls : Urls)
      (opts : ServiceOptions) (source : Pod) (raw_url : Str)
      → new_request urls opts (some service) (some source) raw_url ≢ none
      → Writes r s
      → Ends
          (λ t. t)
          r
          (inspect_istio_traffic_routing K service pods R configs urls opts source raw_url s)
  unfolding inspect_istio_traffic_routing verdict_or_panic
  routing-Ends {s} R configs urls opts source raw_url given w =
      let namespaces = istio_config_namespaces opts (some source) in
      elim (Bool-cases (not configs.connected || has_target_backend_diagnosis s)) [
        | inl h ↦ rw (h, inspect_istio_traffic_routing) w
        | inr h ↦ elim (Answer-cases (list_istio_configs configs.virtual_services namespaces)) [
          | inr (inl k) ↦ rw (h, k, inspect_istio_traffic_routing) w
          | inr (inr (error, k)) ↦
              rw (h, k, inspect_istio_traffic_routing) (list_warning-Writes _ _ error w)
          | inl (services, k) ↦
              elim (Answer-cases (list_istio_configs configs.destination_rules namespaces)) [
                | inr (inl l) ↦ rw (h, k, l, inspect_istio_traffic_routing) w
                | inr (inr (error, l)) ↦
                    rw (h, k, l, inspect_istio_traffic_routing) (list_warning-Writes _ _ error w)
                | inl (rules, l) ↦
                    let (issue, e) =
                      first_issue-some R
                        (istio_service_path_destination_rules opts (some source) rules)
                        (new_request urls opts (some service) (some source) raw_url)
                        (istio_service_path_virtual_services opts (some source) services) given in
                    rw (h, k, l, e, inspect_istio_traffic_routing, verdict_or_panic)
                      (verdict-Writes issue w)
              ]
        ]
      ]

  module _ (mode : MtlsMode) (port : ℤ) {F : Floats} (R : Regexps) (rules : List DestinationRule)
      (request : Request) where
    first_risk-Writes :
        {r s : Report} (services : List (VirtualService F))
        → Writes r s
        → Writes r (first_risk K service pods mode port R rules request s services).0
    unfolding first_risk weighted_report
    first_risk-Writes [] w = w
    first_risk-Writes {s} (vs ∷ rest) w =
        let later = first_risk-Writes rest w in
        elim (Bool-cases (istio_virtual_service_hosts_service vs (some service))) [
          | inr h ↦ rw (h, first_risk) later
          | inl h ↦
              elim (Option-cases (
                group_risk K service pods mode port rules vs.namespace
                  (istio_route_destination_groups R K request vs))) [
                    | inl k ↦ rw (h, k, first_risk) later
                    | inr (found, k) ↦
                        rw (h, k, first_risk, weighted_report) (told-Writes _ _ warn _ _ w)
                  ]
        ]

module _ {F : Floats} (K : Selectors) (peers : Peers) (R : Regexps) (configs : Configs F)
    (urls : Urls) (opts : ServiceOptions) (service : Service) (pods : List Pod) where
  pub weighted-Ends :
      {r s : Report} (source : Option Pod) (raw_url : Str)
      → new_request urls opts (some service) source raw_url ≢ none
      → Writes r s
      → Ends
          (λ t. t.0)
          r
          (inspect_istio_weighted_route_risks K peers R configs urls opts service pods source
            raw_url s)
  unfolding inspect_istio_weighted_route_risks
  weighted-Ends {s} source raw_url given w =
      let namespaces = istio_config_namespaces opts source in
      let peer =
        effective_peer_authentication_for_pods peers.authentications K peers.root_namespace
          (some service) opts.service_port pods in
      elim (Bool-cases
        (not configs.connected || is_empty raw_url || has_target_backend_diagnosis s)) [
          | inl h ↦ rw (h, inspect_istio_weighted_route_risks) w
          | inr h ↦ elim (Answer-cases (list_istio_configs configs.virtual_services namespaces)) [
            | inr (inl k) ↦ rw (h, k, inspect_istio_weighted_route_risks) w
            | inr (inr (error, k)) ↦
                rw (h, k, inspect_istio_weighted_route_risks) (list_warning-Writes _ _ error w)
            | inl (services, k) ↦
                elim (Answer-cases (list_istio_configs configs.destination_rules namespaces)) [
                  | inr (inl l) ↦ rw (h, k, l, inspect_istio_weighted_route_risks) w
                  | inr (inr (error, l)) ↦
                      rw (h, k, l, inspect_istio_weighted_route_risks)
                        (list_warning-Writes _ _ error w)
                  | inl (rules, l) ↦
                      elim (Option-cases (new_request urls opts (some service) source raw_url)) [
                        | inl e ↦ absurd (given e)
                        | inr (request, e) ↦
                            rw (h, k, l, e, inspect_istio_weighted_route_risks)
                              (first_risk-Writes K service pods peer.mode s.target.service_port R
                                (istio_service_path_destination_rules opts source rules) request
                                (istio_service_path_virtual_services opts source services) w)
                      ]
                ]
          ]
        ]

module _ (F : Floats) (fixed_text : F.Float → Str) (duration_text : ℤ → Str) (R : Regexps)
    (K : Selectors) (service : Service) (result : HttpResult) where
  behavior-Writes :
      {r s : Report} (reported : List Str) (behavior : Option Behavior)
      → Writes r s
      → Writes r
          (behavior_report F fixed_text duration_text R K service result s reported behavior).report
  unfolding behavior_report
  behavior-Writes reported none w = w
  behavior-Writes reported (some b) w = elim (Bool-cases (any (str_eq b.id) reported)) [
    | inl h ↦ rw (h, behavior_report) w
    | inr h ↦ rw (h, behavior_report) (told-Writes _ _ b.layer_status _ _ w)
  ]

  pub intentional-Ends :
      {r s : Report} (configs : Configs F) (urls : Urls) (opts : ServiceOptions)
      (source : Option Pod) (raw_url : Str) (reported : List Str)
      → new_request urls opts (some service) source raw_url ≢ none
      → Writes r s
      → Ends
          (λ f. f.report)
          r
          (inspect_istio_intentional_route_behavior F fixed_text duration_text R K service result
            configs urls opts source raw_url s reported)
  unfolding inspect_istio_intentional_route_behavior
  intentional-Ends {s} configs urls opts source raw_url reported given w =
      elim (Bool-cases (not configs.connected || is_empty raw_url)) [
        | inl h ↦ rw (h, inspect_istio_intentional_route_behavior) w
        | inr h ↦
            elim (Answer-cases
              (list_istio_configs configs.virtual_services (istio_config_namespaces opts source))) [
                | inr (inl k) ↦ rw (h, k, inspect_istio_intentional_route_behavior) w
                | inr (inr (error, k)) ↦
                    rw (h, k, inspect_istio_intentional_route_behavior)
                      (list_warning-Writes _ _ error w)
                | inl (services, k) ↦
                    elim (Option-cases (new_request urls opts (some service) source raw_url)) [
                      | inl e ↦ absurd (given e)
                      | inr (request, e) ↦
                          rw (h, k, e, inspect_istio_intentional_route_behavior)
                            (behavior-Writes reported _ w)
                    ]
              ]
      ]
