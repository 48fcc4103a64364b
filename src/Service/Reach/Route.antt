-- ===== src/Service/Reach/Route.antt =====
-- The probes of a Service's URLs in checkRuntimePath (internal/check/service_runtime.go). `none` is the
-- panic of newIstioHTTPRequest.
pub mod Steps
use kube_net_mods.Prelude.{
  Bool, true, false, not, ◌||◌, ◌&&◌, ◌>>=◌, List, [], ◌∷◌, ◌++◌, Option, none, some, Str, codes,
  str_eq, is_empty, if◌then◌else◌, any, sprintf,
}
use kube_net_mods.Model.{Report, Status, pass, fail, warn, skip, add, add_categorized, diagnose}
use kube_net_mods.Cluster.{Pod, Service}
use kube_net_mods.Runtime.Exec.{Exec, resolve_host, curl_url}
use kube_net_mods.Runtime.Probe.{
  ExecTarget, HttpResult, Classification, is_runtime_unavailable_text,
  classify_runtime_http_failure, runtime_probe_failure_message,
}
use kube_net_mods.Service.Endpoints.{has_diagnosis_containing}
use kube_net_mods.Istio.Request.{Urls, ServiceOptions}
use kube_net_mods.Istio.Sidecar.{inspect_istio_sidecar_egress_scope}
use kube_net_mods.Istio.Traffic.Routing.{has_target_backend_diagnosis}
use kube_net_mods.Istio.Traffic.Intentional.Inspect.{
  Found, inspect_istio_intentional_route_behavior,
}
use kube_net_mods.Istio.Mtls.Checks.{
  inspect_istio_mtls_reset, inspect_istio_destination_rule_mtls_mismatch,
}
use kube_net_mods.Istio.Signal.{
  Environment, Signal, rbac_denied, jwt_denied, no_healthy_upstream, upstream_reset,
  classify_istio_runtime, istio_runtime_message, inspect_istio_runtime_signal, configs, peers,
}
use kube_net_mods.Service.Reach.{has_policy_path_diagnosis, compact_command_output}

-- The report, the signals and route behaviors that are reported, and whether a URL was reached.
pub record Run : Type 0 where
  pub report : Report
  pub signals : List Signal
  pub routes : List Str
  pub succeeded : Bool

abbrev pub same_signal : Signal → Signal → Bool
same_signal rbac_denied rbac_denied = true
same_signal jwt_denied jwt_denied = true
same_signal no_healthy_upstream no_healthy_upstream = true
same_signal upstream_reset upstream_reset = true
same_signal _ _ = false

abbrev pub route_layer : Str
route_layer = codes "Source-to-Target Runtime Layer"

unfoldable pub host_from_url : Urls → Str → Str
host_from_url urls raw = elim (urls.parse raw) [ none ↦ [] | some (host, port) ↦ host ]

abbrev pub is_failure : Status → Bool
is_failure fail = true
is_failure _ = false

abbrev pub with_report : Run → Report → Run
with_report run report = record run { report = report }

module _ (E : Environment) (opts : ServiceOptions) (service : Service) (pods : List Pod)
    (source : ExecTarget) where
  -- A signal is explained once.
  unfoldable pub explain_signal : Str → HttpResult → Signal → Run → Option Run
  unfolding inspect_istio_runtime_signal
  explain_signal raw_url result signal run =
      if any (same_signal signal) run.signals
      then some run
      else inspect_istio_runtime_signal E opts service pods source.pod raw_url result signal
          run.report
        >>= λ report. some (record run { report = report; signals = signal ∷ run.signals })

  abbrev pub intentional : Str → HttpResult → Run → Option Found
  intentional raw_url result run =
      inspect_istio_intentional_route_behavior E.floats E.fixed_text E.duration_text E.regexps
        E.selectors service result (configs E) E.urls opts (some source.pod) raw_url run.report
        run.routes

  -- A behavior, or the plain answer
  unfoldable pub reached_report : Str → HttpResult → Run → Found → Run
  unfolding add sprintf istio_runtime_message
  reached_report raw_url result run found = elim found.behavior [
    | some behavior ↦ record {
      report = add found.report route_layer raw_url behavior.runtime_status (
          sprintf (codes "%s %q reached %s, but %s")
            (source.kind ∷ source.pod.name ∷ raw_url ∷ behavior.runtime_message ∷ []));
      signals = run.signals;
      routes = found.reported;
      succeeded = not (is_failure behavior.runtime_status) || run.succeeded;
    }
    | none ↦ record {
      report =
          add found.report route_layer raw_url pass
            (istio_runtime_message source raw_url result none);
      signals = run.signals;
      routes = found.reported;
      succeeded = true;
    }
  ]

  unfoldable pub url_answered : Str → HttpResult → Run → Option Run
  unfolding classify_istio_runtime explain_signal reached_report istio_runtime_message add
      inspect_istio_intentional_route_behavior
  url_answered raw_url result run = elim (classify_istio_runtime result (some source.pod) pods) [
    | some signal ↦ explain_signal raw_url result signal (
        with_report run (
          add run.report route_layer raw_url fail
            (istio_runtime_message source raw_url result (some signal))))
    | none ↦
        intentional raw_url result run >>= λ found. some (reached_report raw_url result run found)
  ]

  -- Whether the failure is laid to the path as a whole
  abbrev pub unexplained : Report → Bool
  unexplained report =
      not (has_policy_path_diagnosis report)
      && not (has_diagnosis_containing report (codes "targetPort mismatch"))
      && not (has_diagnosis_containing report (codes "Headless Service"))
      && not (has_target_backend_diagnosis report)
      && not (is_empty service.selector && not (str_eq service.kind (codes "ExternalName")))

  unfoldable pub path_diagnosis : Str → HttpResult → Report → Report
  unfolding diagnose sprintf compact_command_output has_policy_path_diagnosis
      has_diagnosis_containing has_target_backend_diagnosis str_eq
  path_diagnosis raw_url result report =
      if unexplained report
      then diagnose report (
          sprintf
            (codes
              "Primary issue: source pod %q failed to reach %s for Service %q. Error: %s. Check source egress policy, target ingress policy, service routing, and app listener.")
            (source.pod.name ∷ raw_url ∷ opts.service ∷ compact_command_output result.error ∷ []))
      else report

  -- The Istio explanations of a failure in turn, and then the path
  unfoldable pub url_explained : Str → HttpResult → Report → Option Report
  unfolding inspect_istio_mtls_reset inspect_istio_destination_rule_mtls_mismatch
      inspect_istio_sidecar_egress_scope path_diagnosis
  url_explained raw_url result report =
      let reset =
        inspect_istio_mtls_reset E.selectors (peers E) service pods source.pod
          report.target.service_port result report in
      if reset.1
      then some reset.0
      else inspect_istio_destination_rule_mtls_mismatch E.selectors (peers E) service pods
          source.pod E.regexps (configs E) E.urls opts raw_url result reset.0
        >>= λ mismatch.
            let scope =
              inspect_istio_sidecar_egress_scope E.selectors
                (if E.connected then some E.sidecars else none) mismatch.0 (some service)
                (some source.pod) in
            some (
              if mismatch.1
              then mismatch.0
              else if scope.1
              then scope.0
              else path_diagnosis raw_url result scope.0)

  unfoldable pub failed_report : Str → HttpResult → Run → Found → Option Run
  unfolding url_explained add sprintf
  failed_report raw_url result run found =
      let next : Report → Run = λ report. record run { report = report; routes = found.reported } in
      elim found.behavior [
        | some behavior ↦ some (
            next (
              add found.report route_layer raw_url behavior.runtime_status (
                sprintf (codes "%s %q could not complete %s because %s")
                  (source.kind ∷ source.pod.name ∷ raw_url ∷ behavior.runtime_message ∷ []))))
        | none ↦ url_explained raw_url result found.report >>= λ report. some (next report)
      ]

  -- The diagnosis of a classified failure, unless its summary is in one already.
  unfoldable pub classified : Str → Classification → Report → Report
  unfolding diagnose has_diagnosis_containing sprintf
  classified raw_url class report =
      if has_diagnosis_containing report class.summary
      then report
      else diagnose report (
          sprintf (codes "Primary issue: %s for %s from source pod %q. %s")
            (class.summary ∷ raw_url ∷ source.pod.name ∷ class.diagnosis ∷ []))

  -- What follows the FAIL: the diagnosis of the class, or the search for an explanation
  unfoldable pub url_noted : Str → HttpResult → Classification → Run → Option Run
  unfolding classified failed_report inspect_istio_intentional_route_behavior
  url_noted raw_url result class noted =
      if not (is_empty class.diagnosis)
      then some (with_report noted (classified raw_url class noted.report))
      else intentional raw_url result noted >>= λ found. failed_report raw_url result noted found

  unfoldable pub url_failed : Str → HttpResult → Run → Option Run
  unfolding classify_runtime_http_failure runtime_probe_failure_message add add_categorized
      url_noted str_eq
  url_failed raw_url result run =
      let class = classify_runtime_http_failure result in
      let message = runtime_probe_failure_message source raw_url result class in
      if str_eq class.kind (codes "runtime-unavailable")
      then some (
          with_report run (
            add_categorized run.report route_layer raw_url warn (codes "runtime-unavailable")
              message))
      else url_noted raw_url result class
          (with_report run (add run.report route_layer raw_url fail message))
