-- ===== src/Service/Reach/Direct.antt =====
-- The probes of the target pods, and checkRuntimePath as a whole (internal/check/service_runtime.go).
-- `none` is the panic of newIstioHTTPRequest.
pub mod Pods
pub mod Laws
pub mod Progress
use kube_net_mods.Prelude.{
  Bool, true, false, not, ◌||◌, ◌&&◌, ◌>>=◌, List, [], ◌∷◌, ◌++◌, Option, none, some, Str, codes,
  str_eq, is_empty, if◌then◌else◌, ℤ, pos, int_eq, quote, decimal, sprintf,
}
use kube_net_mods.Model.{
  Report, Status, pass, fail, warn, info, skip, add, add_categorized, diagnose,
}
use kube_net_mods.Cluster.{Pod, Service, ServicePort}
use kube_net_mods.Runtime.Exec.{Exec, Read, read, unread, read_resolv_conf, curl_url}
use kube_net_mods.Runtime.Urls.{url, normal_path, rooted, build_service_urls}
use kube_net_mods.Runtime.Probe.{
  ExecTarget, HttpResult, Classification, pod_ready, classify_runtime_http_failure,
  direct_pod_probe_failure_message,
}
use kube_net_mods.Service.Selection.{Selection, selected, missing, panic, select_service_port}
use kube_net_mods.Service.Ports.{collect_container_ports}
use kube_net_mods.Service.Endpoints.{has_diagnosis_containing, has_istio_diagnosis}
use kube_net_mods.Istio.Request.{ServiceOptions}
use kube_net_mods.Istio.Sidecar.{format_list}
use kube_net_mods.Istio.Traffic.Weighted.{inspect_istio_weighted_route_risks}
use kube_net_mods.Istio.Mtls.Checks.{inspect_istio_mtls_reset}
use kube_net_mods.Istio.Signal.{
  Environment, path_has_istio_sidecar, classify_istio_runtime, istio_runtime_message, configs,
  peers,
}
use kube_net_mods.Service.Reach.{
  has_policy_path_diagnosis, has_node_local_resolver, service_fqdn_url, direct_pod_port_candidates,
}
use kube_net_mods.Service.Reach.Route.{Run, with_report, route_layer, explain_signal}
use kube_net_mods.Service.Reach.Route.Steps.{url_steps}

abbrev pub pod_layer : Str
pod_layer = codes "Pod-to-Pod Connectivity Layer"

module _ (E : Environment) (opts : ServiceOptions) (service : Service) (pods : List Pod)
    (source : ExecTarget) (exec : Exec) where
  module _ (port : ℤ) where
    unfoldable pub check_of : Pod → Str
    unfolding sprintf decimal
    check_of pod = sprintf (codes "%s to %s:%d") (source.kind ∷ pod.name ∷ decimal port ∷ [])

    unfoldable pub pod_diagnosis : Pod → Str → Report → Report
    unfolding diagnose sprintf has_istio_diagnosis has_policy_path_diagnosis
        has_diagnosis_containing
    pod_diagnosis pod raw_url report =
        if has_istio_diagnosis report
          || has_policy_path_diagnosis report
          || has_diagnosis_containing report (codes "targetPort mismatch")
        then report
        else diagnose report (
            sprintf
              (codes
                "Primary issue: direct pod IP connectivity failed from source pod %q to target pod %q on %s. Check CNI/overlay, NetworkPolicy/CNI policy, and whether the app listens on that port.")
              (source.pod.name ∷ pod.name ∷ raw_url ∷ []))

    unfoldable pub pod_classified : Str → Classification → Report → Report
    unfolding diagnose has_diagnosis_containing sprintf
    pod_classified raw_url class report =
        if has_diagnosis_containing report class.summary
        then report
        else diagnose report (
            sprintf (codes "Primary issue: %s for direct pod check %s from source pod %q. %s")
              (class.summary ∷ raw_url ∷ source.pod.name ∷ class.diagnosis ∷ []))

    unfoldable pub pod_explained : Pod → Str → HttpResult → Report → Report
    unfolding inspect_istio_mtls_reset pod_diagnosis
    pod_explained pod raw_url result report =
        let reset =
          inspect_istio_mtls_reset E.selectors (peers E) service pods source.pod
            report.target.service_port result report in
        if reset.1 then reset.0 else pod_diagnosis pod raw_url reset.0

    unfoldable pub pod_failed : Pod → Str → HttpResult → Run → Run
    unfolding classify_runtime_http_failure direct_pod_probe_failure_message check_of add
        add_categorized path_has_istio_sidecar pod_classified pod_explained str_eq
    pod_failed pod raw_url result run =
        let class = classify_runtime_http_failure result in
        let message = direct_pod_probe_failure_message source raw_url result class in
        let failed = add run.report pod_layer (check_of pod) fail message in
        with_report run (
          if str_eq class.kind (codes "runtime-unavailable")
          then add_categorized run.report pod_layer (check_of pod) warn
              (codes "runtime-unavailable") message
          else if run.succeeded && path_has_istio_sidecar (some source.pod) pods
          then add run.report pod_layer (check_of pod) info (
              message
              ++ codes
                  " Service path already succeeded; direct pod IP checks can bypass normal Istio service routing/SNI/TLS behavior.")
          else if not (is_empty class.diagnosis)
          then pod_classified raw_url class failed
          else pod_explained pod raw_url result failed)

    unfoldable pub pod_answered : Pod → Str → HttpResult → Run → Option Run
    unfolding classify_istio_runtime explain_signal istio_runtime_message add check_of sprintf
    pod_answered pod raw_url result run =
        elim (classify_istio_runtime result (some source.pod) pods) [
          | some signal ↦ explain_signal E opts service pods source raw_url result signal (
              with_report run (
                add run.report pod_layer (check_of pod) fail
                  (istio_runtime_message source raw_url result (some signal))))
          | none ↦ some (
              with_report run (
                add run.report pod_layer (check_of pod) pass (
                  sprintf (codes "%s reachable from %s %q. HTTP status: %s")
                    (raw_url ∷ source.kind ∷ source.pod.name ∷ result.status_code ∷ []))))
        ]

    unfoldable pub pod_step : Pod → Run → Option Run
    unfolding pod_ready rooted curl_url pod_answered pod_failed
    pod_step pod run =
        let raw_url = url opts.url_scheme pod.pod_ip port (normal_path opts.url_path) in
        let result = curl_url exec raw_url opts.timeout opts.http_headers in
        if not (pod_ready pod) || is_empty pod.pod_ip
        then some run
        else if result.ok
        then pod_answered pod raw_url result run
        else some (pod_failed pod raw_url result run)

    unfoldable pub pod_steps : List Pod → Run → Option Run
    unfolding pod_step
    pod_steps [] run = some run
    pod_steps (pod ∷ rest) run = pod_step pod run >>= λ next. pod_steps rest next

  unfoldable pub resolver_report : Report → Report
  unfolding read_resolv_conf add sprintf format_list has_node_local_resolver
  resolver_report report = elim (read_resolv_conf exec) [
    | unread error ↦ add report (codes "Source DNS Layer") (codes "resolv.conf") warn (
        sprintf (codes "Could not read /etc/resolv.conf from %s %q: %v")
          (source.kind ∷ source.pod.name ∷ error ∷ []))
    | read conf ↦
        let told = add report (codes "Source DNS Layer") (codes "resolv.conf") pass (
          sprintf (codes "Runtime nameserver(s): %s; search domains: %s")
            (format_list conf.nameservers ∷ format_list conf.searches ∷ [])) in
        if has_node_local_resolver conf.nameservers
        then add told (codes "Source DNS Layer") (codes "runtime resolver") info
            (codes "Source path uses a NodeLocalDNS/link-local resolver.")
        else told
  ]

  abbrev pub no_pod_port : Report → Report
  no_pod_port report =
      add report pod_layer (codes "direct target pod") skip
        (codes "No usable target pod port candidate was found.")

  unfoldable pub pods_probed : List ℤ → Run → Option Report
  unfolding pod_steps add
  pods_probed [] run = some (no_pod_port run.report)
  pods_probed (port ∷ ports) run =
      if int_eq port (pos 0)
      then some (no_pod_port run.report)
      else pod_steps port pods run >>= λ done. some done.report

  -- The part of checkRuntimePath that probes
  unfoldable pub path_probed : Report → Option Report
  unfolding resolver_report build_service_urls service_fqdn_url inspect_istio_weighted_route_risks
      url_steps pods_probed direct_pod_port_candidates collect_container_ports
  path_probed report =
      let port = report.target.service_port in
      inspect_istio_weighted_route_risks E.selectors (peers E) E.regexps (configs E) E.urls opts
        service pods (some source.pod)
        (service_fqdn_url service opts.namespace opts.service opts.url_scheme opts.url_path port)
        (resolver_report report)
      >>= λ risks.
          url_steps E opts service pods source exec
            (build_service_urls (some service) opts.namespace opts.service opts.url_scheme
              opts.url_path port)
            (record { report = risks.0; signals = []; routes = []; succeeded = false })
          >>= λ run.
              pods_probed
                (direct_pod_port_candidates (some service) port (collect_container_ports pods)) run

abbrev pub skipped : Report → Str → Report
skipped report reason = add report route_layer (codes "service path") skip reason

module _ (E : Environment) (opts : ServiceOptions) (pods : List Pod) (exec : Exec) where
  unfoldable pub probed_from : Service → Option ExecTarget → Report → Option Report
  unfolding path_probed add
  probed_from service none report =
      some
        (skipped report (codes "Skipped because no executable source pod/debug pod was available."))
  probed_from service (some source) report = path_probed E opts service pods source exec report

  unfoldable pub check_runtime_path : Option Service → Option ExecTarget → Report → Option Report
  unfolding probed_from select_service_port add sprintf decimal str_eq
  check_runtime_path none source report =
      some (skipped report (codes "Skipped because the target Service was not readable."))
  check_runtime_path (some service) source report =
      elim (select_service_port service report.target.service_port) [
        | panic ↦ none
        | missing ↦
            some (skipped report (codes "Skipped because the selected Service port was not found."))
        | selected port ↦
            if not (is_empty port.protocol) && not (str_eq port.protocol (codes "TCP"))
            then some (
                skipped report (
                  sprintf
                    (codes
                      "Skipped HTTP runtime checks because selected Service port %d uses %s, not TCP.")
                    (decimal port.port ∷ port.protocol ∷ [])))
            else probed_from service source report
      ]
