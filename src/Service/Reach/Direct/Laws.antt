-- ===== src/Service/Reach/Direct/Laws.antt =====
-- The writes of checkRuntimePath as a whole (internal/check/service_runtime.go).
use mathlib.Core.Option.{some-injective}
use kube_net_mods.Prelude.{
  ap, ◌∙◌, false, not, ◌&&◌, ◌≡◌, ◌≢◌, ◌⊎◌, refl, inl, inr, List, [], ◌∷◌, Option, none, some, Str,
  Bool-cases, is_empty, str_eq, codes, ℤ, pos, int_eq,
}
use kube_net_mods.Model.{Report, pass, warn, info, skip}
use kube_net_mods.Model.Laws.{Writes, start}
use kube_net_mods.Model.Steps.{add-Writes, if-Writes, Ends, if-Ends, >>=-Ends, Ends-result}
use kube_net_mods.Cluster.{Pod, Service, ServicePort}
use kube_net_mods.Runtime.Resolv.{ResolvConf}
use kube_net_mods.Runtime.Exec.{Exec, Read, read, unread, read_resolv_conf}
use kube_net_mods.Runtime.Urls.{build_service_urls}
use kube_net_mods.Runtime.Probe.{ExecTarget}
use kube_net_mods.Service.Selection.{
  Selection, selected, missing, panic, select_service_port, select_service_port_panics_iff,
}
use kube_net_mods.Service.Ports.{collect_container_ports}
use kube_net_mods.Istio.Request.{ServiceOptions, new_request, new_request_panics_iff}
use kube_net_mods.Istio.Traffic.Weighted.{inspect_istio_weighted_route_risks}
use kube_net_mods.Istio.Traffic.Writing.{weighted-Ends}
use kube_net_mods.Istio.Signal.{Environment, configs, peers}
use kube_net_mods.Service.Reach.{
  has_node_local_resolver, service_fqdn_url, direct_pod_port_candidates,
}
use kube_net_mods.Service.Reach.Route.{Run}
use kube_net_mods.Service.Reach.Route.Steps.{url_steps}
use kube_net_mods.Service.Reach.Writing.{url_steps-Ends}
use kube_net_mods.Service.Reach.Direct.Pods.{pod_steps-Ends}
use kube_net_mods.Service.Reach.Direct.{
  pod_steps, resolver_report, pods_probed, path_probed, probed_from, check_runtime_path,
}

Read-cases :
    (answer : Read)
    → ((error : Str) × (answer ≡ unread error)) ⊎ ((conf : ResolvConf) × (answer ≡ read conf))
Read-cases (unread error) = inl (error, refl)
Read-cases (read conf) = inr (conf, refl)

pub Selection-cases :
    (choice : Selection)
    → (choice ≡ panic) ⊎ (choice ≡ missing) ⊎ ((port : ServicePort) × (choice ≡ selected port))
Selection-cases panic = inl refl
Selection-cases missing = inr (inl refl)
Selection-cases (selected port) = inr (inr (port, refl))

module _ (E : Environment) (opts : ServiceOptions) (service : Service) (pods : List Pod)
    (source : ExecTarget)
    (given : (raw_url : Str)
      → new_request E.urls opts (some service) (some source.pod) raw_url ≢ none)
    (exec : Exec) where
  pub resolver-Writes :
      {r s : Report} → Writes r s → Writes r (resolver_report E opts service pods source exec s)
  unfolding resolver_report
  resolver-Writes w = elim (Read-cases (read_resolv_conf exec)) [
    | inl (error, e) ↦ rw (e, resolver_report) (add-Writes _ _ warn _ w)
    | inr (conf, e) ↦
        let told_w = add-Writes _ _ pass _ w in
        rw (e, resolver_report)
          (if-Writes (has_node_local_resolver conf.nameservers) (add-Writes _ _ info _ told_w)
            told_w)
  ]

  pub pods_probed-Ends :
      {r : Report} (ports : List ℤ) (run : Run)
      → Writes r run.report
      → Ends (λ t. t) r (pods_probed E opts service pods source exec ports run)
  unfolding pods_probed
  pods_probed-Ends [] run w = add-Writes _ _ skip _ w
  pods_probed-Ends {r} (port ∷ ports) run w =
      if-Ends (λ t. t) r (int_eq port (pos 0)) _ _ (add-Writes _ _ skip _ w)
        (>>=-Ends (λ x. x.report) (λ t. t) r
          (pod_steps E opts service pods source exec port pods run) _
          (pod_steps-Ends E opts service pods source given exec port pods run w) (λ done v. v))

  path-Ends :
      {r s : Report} → Writes r s → Ends (λ t. t) r (path_probed E opts service pods source exec s)
  unfolding path_probed
  path-Ends {r} {s} w =
      let port = s.target.service_port in
      let raw_url =
        service_fqdn_url service opts.namespace opts.service opts.url_scheme opts.url_path port in
      >>=-Ends (λ t. t.0) (λ t. t) r
        (inspect_istio_weighted_route_risks E.selectors (peers E) E.regexps (configs E) E.urls opts
          service pods (some source.pod) raw_url
          (resolver_report E opts service pods source exec s))
        _
        (weighted-Ends E.selectors (peers E) E.regexps (configs E) E.urls opts service pods
          (some source.pod) raw_url (given raw_url) (resolver-Writes w))
        (λ risks v.
          >>=-Ends (λ x. x.report) (λ t. t) r
            (url_steps E opts service pods source exec
              (build_service_urls (some service) opts.namespace opts.service opts.url_scheme
                opts.url_path port)
              (record { report = risks.0; signals = []; routes = []; succeeded = false }))
            _ (url_steps-Ends E opts service pods source given exec _ _ v)
            (λ run u.
              pods_probed-Ends
                (direct_pod_port_candidates (some service) port (collect_container_ports pods)) run
                u))

pub requested-given :
    (E : Environment) (opts : ServiceOptions) (service : Service)
    → service.ports ≢ []
    → (source : ExecTarget) (raw_url : Str)
    → new_request E.urls opts (some service) (some source.pod) raw_url ≢ none
requested-given E opts service ports source raw_url e =
    let (s, same, asked, empty) =
      (new_request_panics_iff E.urls opts (some service) (some source.pod) raw_url).0 e in
    ports (ap (λ x. x.ports) (some-injective service s same) ∙ empty)

module _ (E : Environment) (opts : ServiceOptions) (pods : List Pod) (exec : Exec)
    (service : Service) (ports : service.ports ≢ []) where
  probed-Ends :
      (source : Option ExecTarget) (report : Report)
      → Ends (λ t. t) report (probed_from E opts pods exec service source report)
  unfolding probed_from
  probed-Ends none report = add-Writes _ _ skip _ start
  probed-Ends (some source) report =
      path-Ends E opts service pods source (requested-given E opts service ports source) exec start

  runtime_path-Ends :
      (source : Option ExecTarget) (report : Report)
      → Ends (λ t. t) report (check_runtime_path E opts pods exec (some service) source report)
  unfolding check_runtime_path
  runtime_path-Ends source report =
      let requested = report.target.service_port in
      elim (Selection-cases (select_service_port service requested)) [
        | inl e ↦ absurd (ports ((select_service_port_panics_iff service requested).0 e).1)
        | inr (inl e) ↦ rw (e, check_runtime_path) (add-Writes _ _ skip _ start)
        | inr (inr (port, e)) ↦
            elim (Bool-cases
              (not (is_empty port.protocol) && not (str_eq port.protocol (codes "TCP")))) [
                | inl h ↦ rw (e, h, check_runtime_path) (add-Writes _ _ skip _ start)
                | inr h ↦ rw (e, h, check_runtime_path) (probed-Ends source report)
              ]
      ]

-- For a Service with ports, checkRuntimePath does not panic, whatever the cluster, the mesh and the shell
-- of the source pod answer: it returns the report that it was given after a sequence of Add,
-- AddCategorized and Diagnose calls on it.
pub check_runtime_path-Writes :
    (E : Environment) (opts : ServiceOptions) (pods : List Pod) (exec : Exec) (service : Service)
    (source : Option ExecTarget) (report : Report)
    → service.ports ≢ []
    → (s : Report) × (check_runtime_path E opts pods exec (some service) source report ≡ some s)
      × Writes report s
check_runtime_path-Writes E opts pods exec service source report ports =
    Ends-result report _ (runtime_path-Ends E opts pods exec service ports source report)
