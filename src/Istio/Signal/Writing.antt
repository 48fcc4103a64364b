-- ===== src/Istio/Signal/Writing.antt =====
-- The writes of the inspections of TLS modes and of the sidecar's scope, and of the explanation of Envoy's
-- answer (internal/check/istio_mtls.go, istio_sidecar.go, istio.go).
use kube_net_mods.Prelude.{
  Bool, false, not, ◌||◌, ◌≢◌, inl, inr, List, Option, none, some, Str, Option-cases, Bool-cases,
  is_empty, ℤ,
}
use kube_net_mods.Model.{Report, warn, fail}
use kube_net_mods.Model.Laws.{Writes}
use kube_net_mods.Model.Steps.{told-Writes, if-Writes, pair-Writes, Ends}
use kube_net_mods.Cluster.{Pod, Service, Selectors}
use kube_net_mods.Calico.Value.{Floats}
use kube_net_mods.Runtime.Probe.{HttpResult}
use kube_net_mods.Service.Endpoints.{has_istio_diagnosis}
use kube_net_mods.Istio.Request.{Urls, ServiceOptions, new_request}
use kube_net_mods.Istio.Matching.{Regexps}
use kube_net_mods.Istio.Client.{Answer, list_istio_configs, istio_config_namespaces}
use kube_net_mods.Istio.Client.Laws.{Answer-cases}
use kube_net_mods.Istio.Sidecar.{
  Sidecar, pod_has_istio_sidecar, scope_report, effective_istio_sidecar_for_source,
  istio_sidecar_egress_allows_service, inspect_istio_sidecar_egress_scope,
}
use kube_net_mods.Istio.Traffic.Routing.{Configs}
use kube_net_mods.Istio.Traffic.Writing.{routing-Ends}
use kube_net_mods.Istio.Authz.Writing.{authentication-Writes, denial-Ends}
use kube_net_mods.Istio.Mtls.{EffectiveMode, is_strict}
use kube_net_mods.Istio.Mtls.Checks.{
  RuleTlsMode, Peers, mtls_layer, is_istio_mutual, mode_for, once, strict_reset, report_has_result,
  mismatch_verdict, runtime_looks_like_connection_reset, inspect_istio_mtls_reset,
  inspect_istio_destination_rule_mtls_mismatch,
}
use kube_net_mods.Istio.Signal.{
  Environment, Signal, rbac_denied, jwt_denied, no_healthy_upstream, upstream_reset, mesh, configs,
  peers, reset_report, reset_or_panic, inspect_istio_runtime_signal,
}

module _ (K : Selectors) (peers : Peers) (service : Service) (pods : List Pod) (source : Pod) where
  once-Writes :
      {r s : Report} (check message told : Str)
      → Writes r s
      → Writes r (once K peers service pods source s check message told).0
  unfolding once
  once-Writes {s} check message told w = elim (Bool-cases (report_has_result s mtls_layer check)) [
    | inl h ↦ rw (h, once) w
    | inr h ↦ rw (h, once) (told-Writes mtls_layer check fail message told w)
  ]

  strict-Writes :
      {r s : Report} (policy : EffectiveMode)
      → Writes r s
      → Writes r (strict_reset K peers service pods source policy s).0
  unfolding strict_reset
  strict-Writes policy w = once-Writes _ _ _ w

  pub reset-Writes :
      {r s : Report} (port : ℤ) (result : HttpResult)
      → Writes r s
      → Writes r (inspect_istio_mtls_reset K peers service pods source port result s).0
  unfolding inspect_istio_mtls_reset
  reset-Writes {s} port result w =
      let strict = is_strict (mode_for K peers service pods source port).mode in
      pair-Writes
        (not peers.connected
          || not (runtime_looks_like_connection_reset result)
          || pod_has_istio_sidecar source)
        (s, false) _ w
        (pair-Writes (not strict) (s, false) _ w
          (strict-Writes (mode_for K peers service pods source port) w))

  mismatch-Writes :
      {r s : Report} (peer : EffectiveMode) (tls : Option RuleTlsMode)
      → Writes r s
      → Writes r (mismatch_verdict K peers service pods source s peer tls).0
  unfolding mismatch_verdict
  mismatch-Writes peer none w = w
  mismatch-Writes {s} peer (some tls) w =
      pair-Writes (is_istio_mutual tls.mode) (s, false) _ w (once-Writes _ _ _ w)

  pub mismatch-Ends :
      {F : Floats} {r s : Report} (R : Regexps) (configs : Configs F) (urls : Urls)
      (opts : ServiceOptions) (raw_url : Str) (result : HttpResult)
      → new_request urls opts (some service) (some source) raw_url ≢ none
      → Writes r s
      → Ends
          (λ t. t.0)
          r
          (inspect_istio_destination_rule_mtls_mismatch K peers service pods source R configs urls
            opts raw_url result s)
  unfolding inspect_istio_destination_rule_mtls_mismatch
  mismatch-Ends R configs urls opts raw_url result given w =
      elim (Bool-cases (
        not peers.connected
        || not (runtime_looks_like_connection_reset result)
        || not (pod_has_istio_sidecar source))) [
          | inl h ↦ rw (h, inspect_istio_destination_rule_mtls_mismatch) w
          | inr h ↦
              elim (Bool-cases
                (is_strict (mode_for K peers service pods source opts.service_port).mode)) [
                  | inr k ↦ rw (h, k, inspect_istio_destination_rule_mtls_mismatch) w
                  | inl k ↦
                      elim (Answer-cases (
                        list_istio_configs configs.destination_rules
                          (istio_config_namespaces opts (some source)))) [
                            | inr (inl l) ↦
                                rw (h, k, l, inspect_istio_destination_rule_mtls_mismatch) w
                            | inr (inr (error, l)) ↦
                                rw (h, k, l, inspect_istio_destination_rule_mtls_mismatch) w
                            | inl (rules, l) ↦
                                elim (Option-cases
                                  (new_request urls opts (some service) (some source) raw_url)) [
                                    | inl e ↦ absurd (given e)
                                    | inr (request, e) ↦
                                        rw
                                          (h, k, l, e, inspect_istio_destination_rule_mtls_mismatch)
                                          (mismatch-Writes
                                            (mode_for K peers service pods source opts.service_port)
                                            _ w)
                                  ]
                          ]
                ]
        ]

pub scope-Writes :
    {r s : Report} (K : Selectors) (ask : Option (Str → Answer (Option Sidecar)))
    (service : Service) (source : Pod)
    → Writes r s
    → Writes r (inspect_istio_sidecar_egress_scope K ask s (some service) (some source)).0
unfolding inspect_istio_sidecar_egress_scope scope_report
scope-Writes K none service source w = w
scope-Writes K (some ask) service source w = elim (Bool-cases (pod_has_istio_sidecar source)) [
  | inr h ↦ rw (h, inspect_istio_sidecar_egress_scope) w
  | inl h ↦ elim (Option-cases (effective_istio_sidecar_for_source K ask source)) [
    | inl k ↦ rw (h, k, inspect_istio_sidecar_egress_scope) w
    | inr (sidecar, k) ↦
        elim (Bool-cases
          (is_empty sidecar.egress || istio_sidecar_egress_allows_service sidecar (some service))) [
            | inl l ↦ rw (h, k, l, inspect_istio_sidecar_egress_scope) w
            | inr l ↦
                rw (h, k, l, inspect_istio_sidecar_egress_scope, scope_report)
                  (told-Writes _ _ warn _ _ w)
          ]
  ]
]

module _ (E : Environment) (opts : ServiceOptions) (service : Service) (pods : List Pod)
    (source : Pod) where
  reset_report-Writes :
      {r s : Report} (explained : Bool)
      → Writes r s
      → Writes r (reset_report E opts service pods source (s, explained))
  unfolding reset_report
  reset_report-Writes {s} explained w =
      if-Writes (explained || has_istio_diagnosis s) w (told-Writes _ _ warn _ _ w)

  or_panic-Ends :
      (r : Report) (found : Option (Report × Bool))
      → Ends (λ t. t.0) r found
      → Ends (λ t. t) r (reset_or_panic E opts service pods source found)
  or_panic-Ends r none w = absurd w
  or_panic-Ends r (some (s, explained)) w = reset_report-Writes explained w

  -- Whatever the signal, its explanation returns when the request can be built.
  pub signal-Ends :
      {r s : Report} (raw_url : Str) (result : HttpResult) (signal : Signal)
      → new_request E.urls opts (some service) (some source) raw_url ≢ none
      → Writes r s
      → Ends
          (λ t. t)
          r
          (inspect_istio_runtime_signal E opts service pods source raw_url result signal s)
  unfolding inspect_istio_runtime_signal
  signal-Ends raw_url result rbac_denied given w =
      denial-Ends E.selectors service pods source (mesh E) E.urls opts raw_url given w
  signal-Ends raw_url result jwt_denied given w =
      authentication-Writes E.selectors service pods (mesh E) fail w
  signal-Ends raw_url result no_healthy_upstream given w =
      routing-Ends E.selectors service pods E.regexps (configs E) E.urls opts source raw_url given w
  signal-Ends {s} raw_url result upstream_reset given w =
      or_panic-Ends _
        (inspect_istio_destination_rule_mtls_mismatch E.selectors (peers E) service pods source
          E.regexps (configs E) E.urls opts raw_url result s)
        (mismatch-Ends E.selectors (peers E) service pods source E.regexps (configs E) E.urls opts
          raw_url result given w)
