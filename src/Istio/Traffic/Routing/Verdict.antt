-- ===== src/Istio/Traffic/Routing/Verdict.antt =====
-- The verdict of inspectIstioTrafficRouting (internal/check/istio_traffic.go).
use mathlib.Core.Option.{some-injective}
use kube_net_mods.Prelude.{
  true, false, ◌≡◌, ◌↔◌, refl, inl, inr, List, Option, some, Str, Exists, Option-cases, is_some,
  arith, sym, ◌∙◌, ap, subst,
}
use kube_net_mods.Model.{Report}
use kube_net_mods.Cluster.{Pod, Service, Selectors}
use kube_net_mods.Calico.Value.{Floats}
use kube_net_mods.Istio.Request.{Urls, ServiceOptions, Request, new_request}
use kube_net_mods.Istio.Matching.{Regexps}
use kube_net_mods.Istio.Client.{
  items, list_istio_configs, istio_config_namespaces, istio_service_path_virtual_services,
  istio_service_path_destination_rules,
}
use kube_net_mods.Istio.Config.{VirtualService, DestinationRule}
use kube_net_mods.Istio.Traffic.Routing.{
  Issue, Configs, has_target_backend_diagnosis, first_issue, routing_verdict, verdict_or_panic,
  inspect_istio_traffic_routing,
}
use kube_net_mods.Istio.Traffic.Routing.Broken.{Breaks, first_issue_iff}
use kube_net_mods.Istio.Traffic.Writing.{first_issue-some}

module _ (K : Selectors) (service : Service) (pods : List Pod) {F : Floats} (R : Regexps)
    (configs : Configs F) (urls : Urls) (opts : ServiceOptions) (source : Pod) (raw_url : Str) where
  -- When the mesh lists its VirtualServices and DestinationRules, the request can be built and the report
  -- has no diagnosis of the target's backends, the verdict is a FAIL that names an issue exactly when one
  -- of the VirtualServices that the source sees hosts the Service and routes the request to a subset that
  -- is missing from the DestinationRule of its host or that no ready pod serves, and otherwise the WARN
  -- that no issue was found.
  pub inspect_istio_traffic_routing_verdict :
      (report : Report) (services : List (Option (VirtualService F)))
      (rules : List (Option DestinationRule)) (request : Request)
      → configs.connected ≡ true
      → has_target_backend_diagnosis report ≡ false
      → list_istio_configs configs.virtual_services (istio_config_namespaces opts (some source))
        ≡ items services
      → list_istio_configs configs.destination_rules (istio_config_namespaces opts (some source))
        ≡ items rules
      → new_request urls opts (some service) (some source) raw_url ≡ some request
      → (issue : Option Issue) × (inspect_istio_traffic_routing K service pods R configs urls opts
            source raw_url report
          ≡ some (routing_verdict K service pods report issue))
        × ((is_some issue ≡ true)
            ↔ Exists
                (Breaks K service pods
                  (istio_service_path_destination_rules opts (some source) rules)
                  R
                  request)
                (istio_service_path_virtual_services opts (some source) services))
  unfolding inspect_istio_traffic_routing verdict_or_panic
  inspect_istio_traffic_routing_verdict report services rules request c d v r q =
      let seen_rules = istio_service_path_destination_rules opts (some source) rules in
      let seen = istio_service_path_virtual_services opts (some source) services in
      let (issue, e) =
        first_issue-some K service pods R seen_rules
          (new_request urls opts (some service) (some source) raw_url) seen (λ n. cc) in
      let asked : first_issue K service pods R seen_rules (some request) seen ≡ some issue =
        subst (λ x. first_issue K service pods R seen_rules x seen ≡ some issue) q e in
      let (to, from) = first_issue_iff K service pods seen_rules R request seen in
      (
        issue,
        rw (c, d, v, r, e, inspect_istio_traffic_routing, verdict_or_panic) refl,
        (
          λ h. elim (Option-cases issue) [
            | inl n ↦ absurd (ground (arith, n, h))
            | inr (found, n) ↦ to (found, asked ∙ ap some n)
          ],
          λ b.
              let (found, k) = from b in
              rw (some-injective issue (some found) (sym asked ∙ k)) refl,
        ),
      )
