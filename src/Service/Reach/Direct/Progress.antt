-- ===== src/Service/Reach/Direct/Progress.antt =====
-- The results for the URLs of the Service in checkRuntimePath as a whole (internal/check/service_runtime.go).
use kube_net_mods.Prelude.{
  true, false, not, ◌||◌, ◌&&◌, ◌≡◌, ◌≢◌, refl, sym, ◌∙◌, List, [], some, Str, is_empty, str_eq,
  codes, Each, arith,
}
use kube_net_mods.Model.{Report}
use kube_net_mods.Model.Laws.{start}
use kube_net_mods.Cluster.{Pod, Service, ServicePort}
use kube_net_mods.Runtime.Exec.{Exec}
use kube_net_mods.Runtime.Urls.{build_service_urls}
use kube_net_mods.Runtime.Probe.{ExecTarget}
use kube_net_mods.Service.Selection.{selected, select_service_port}
use kube_net_mods.Service.Ports.{collect_container_ports}
use kube_net_mods.Istio.Request.{ServiceOptions}
use kube_net_mods.Istio.Mtls.Checks.{report_has_result}
use kube_net_mods.Istio.Traffic.Weighted.{inspect_istio_weighted_route_risks}
use kube_net_mods.Istio.Traffic.Writing.{weighted-Ends}
use kube_net_mods.Istio.Signal.{Environment, configs, peers}
use kube_net_mods.Service.Reach.{service_fqdn_url, direct_pod_port_candidates}
use kube_net_mods.Service.Reach.Route.{route_layer}
use kube_net_mods.Service.Reach.Route.Steps.{url_steps}
use kube_net_mods.Service.Reach.Progress.{Shows, then-Shows, keep-Shows, url_steps-Shows}
use kube_net_mods.Service.Reach.Direct.{
  resolver_report, path_probed, probed_from, check_runtime_path,
}
use kube_net_mods.Service.Reach.Direct.Laws.{
  resolver-Writes, pods_probed-Ends, requested-given, check_runtime_path-Writes,
}

abbrev pub tried : ServiceOptions → Service → Report → List Str
tried opts service report =
    build_service_urls (some service) opts.namespace opts.service opts.url_scheme opts.url_path
      report.target.service_port

module _ (E : Environment) (opts : ServiceOptions) (pods : List Pod) (exec : Exec)
    (service : Service) (ports : service.ports ≢ []) (source : ExecTarget) (report : Report) where
  path-Shows :
      Each
        (λ raw_url. Shows (λ t. t) raw_url (path_probed E opts service pods source exec report))
        (tried opts service report)
  unfolding path_probed
  path-Shows raw_url m =
      let given = requested-given E opts service ports source in
      let port = report.target.service_port in
      let first =
        service_fqdn_url service opts.namespace opts.service opts.url_scheme opts.url_path port in
      then-Shows (λ t. t.0) (λ t. t) raw_url report
        (inspect_istio_weighted_route_risks E.selectors (peers E) E.regexps (configs E) E.urls opts
          service pods (some source.pod) first
          (resolver_report E opts service pods source exec report))
        _
        (weighted-Ends E.selectors (peers E) E.regexps (configs E) E.urls opts service pods
          (some source.pod) first (given first)
          (resolver-Writes E opts service pods source given exec start))
        (λ risks.
          keep-Shows (λ x. x.report) (λ t. t) raw_url
            (url_steps E opts service pods source exec (tried opts service report)
              (record { report = risks.0; signals = []; routes = []; succeeded = false }))
            _ (url_steps-Shows E opts service pods source given exec _ _ raw_url m)
            (λ run.
              pods_probed-Ends E opts service pods source given exec
                (direct_pod_port_candidates (some service) port (collect_container_ports pods)) run
                start))

  path-taken :
      (port : ServicePort)
      → select_service_port service report.target.service_port ≡ selected port
      → (is_empty port.protocol || str_eq port.protocol (codes "TCP")) ≡ true
      → check_runtime_path E opts pods exec (some service) (some source) report
        ≡ path_probed E opts service pods source exec report
  unfolding check_runtime_path probed_from
  path-taken port e tcp =
      let plain : (not (is_empty port.protocol) && not (str_eq port.protocol (codes "TCP")))
          ≡ false =
        ground (arith, tcp) in
      rw (e, plain, check_runtime_path) refl

-- When the source pod can run a shell, the Service has ports, and the selected port is a TCP port,
-- checkRuntimePath returns a report in which every URL of BuildServiceURLs has a result of the
-- source-to-target layer, whatever the resolver, the probes and the mesh answer.
pub check_runtime_path-Reported :
    (E : Environment) (opts : ServiceOptions) (pods : List Pod) (exec : Exec) (service : Service)
    (source : ExecTarget) (report : Report) (port : ServicePort)
    → service.ports ≢ []
    → select_service_port service report.target.service_port ≡ selected port
    → (is_empty port.protocol || str_eq port.protocol (codes "TCP")) ≡ true
    → (s : Report) × (check_runtime_path E opts pods exec (some service) (some source) report
        ≡ some s)
      × Each (λ raw_url. report_has_result s route_layer raw_url ≡ true) (tried opts service report)
check_runtime_path-Reported E opts pods exec service source report port ports e tcp =
    let (s, done, w) =
      check_runtime_path-Writes E opts pods exec service (some source) report ports in
    let probed = sym (path-taken E opts pods exec service ports source report port e tcp) ∙ done in
    (
      s,
      done,
      λ raw_url m. rw probed at (path-Shows E opts pods exec service ports source report raw_url m),
    )
