-- ===== src/Service/Reach/Route/Steps.antt =====
-- One URL after the other in checkRuntimePath (internal/check/service_runtime.go): the DNS check, curl, and
-- what its answer leads to.
use kube_net_mods.Prelude.{
  ◌||◌, ◌>>=◌, List, [], ◌∷◌, ◌++◌, Option, none, some, Str, codes, str_eq, is_empty, if◌then◌else◌,
  sprintf,
}
use kube_net_mods.Model.{pass, fail, warn, skip, add, add_categorized, diagnose}
use kube_net_mods.Cluster.{Pod, Service}
use kube_net_mods.Runtime.Exec.{Exec, resolve_host, curl_url}
use kube_net_mods.Runtime.Probe.{ExecTarget, is_runtime_unavailable_text}
use kube_net_mods.Service.Endpoints.{has_diagnosis_containing}
use kube_net_mods.Istio.Request.{ServiceOptions}
use kube_net_mods.Istio.Signal.{Environment}
use kube_net_mods.Service.Reach.Route.{
  Run, with_report, route_layer, host_from_url, url_answered, url_failed,
}

module _ (E : Environment) (opts : ServiceOptions) (service : Service) (pods : List Pod)
    (source : ExecTarget) (exec : Exec) where
  unfoldable pub curl_step : Str → Run → Option Run
  unfolding curl_url url_answered url_failed
  curl_step raw_url run =
      let result = curl_url exec raw_url opts.timeout opts.http_headers in
      if result.ok
      then url_answered E opts service pods source raw_url result run
      else url_failed E opts service pods source raw_url result run

  unfoldable pub dns_layer : Str
  dns_layer = codes "Source-to-Target DNS Layer"

  -- A host that does not resolve is not probed.
  unfoldable pub unresolved : Str → Str → Run → Run
  unfolding add diagnose sprintf has_diagnosis_containing dns_layer
  unresolved raw_url host run =
      let failed = add run.report dns_layer (codes "resolve " ++ host) fail (
        sprintf (codes "%s %q could not resolve %q.")
          (source.kind ∷ source.pod.name ∷ host ∷ [])) in
      let told =
        if has_diagnosis_containing failed (codes "runtime DNS resolver")
        then failed
        else diagnose failed (
            sprintf
              (codes
                "Source namespace %q cannot resolve target service name %q. Check DNS policy, CoreDNS/NodeLocalDNS, and egress DNS policy.")
              (source.pod.namespace ∷ host ∷ [])) in
      with_report run (
        add told route_layer raw_url skip (
          sprintf (codes "Skipped curl because %q did not resolve from %s %q.")
            (host ∷ source.kind ∷ source.pod.name ∷ [])))

  unfoldable pub url_step : Str → Run → Option Run
  unfolding curl_step unresolved host_from_url resolve_host is_runtime_unavailable_text add
      add_categorized sprintf str_eq dns_layer
  url_step raw_url run =
      let host = host_from_url E.urls raw_url in
      if is_empty host || str_eq host service.cluster_ip
      then curl_step raw_url run
      else elim (resolve_host exec host) [
        | none ↦ curl_step raw_url (
            with_report run (
              add run.report dns_layer (codes "resolve " ++ host) pass
                (sprintf (codes "%s %q resolved %q.") (source.kind ∷ source.pod.name ∷ host ∷ []))))
        | some error ↦
            if is_runtime_unavailable_text error
            then curl_step raw_url (
                with_report run (
                  add_categorized run.report dns_layer (codes "resolve " ++ host) warn
                    (codes "runtime-unavailable")
                    (sprintf
                      (codes
                        "Skipped explicit DNS precheck for %q from %s %q because resolver tooling is unavailable: %v")
                      (host ∷ source.kind ∷ source.pod.name ∷ error ∷ []))))
            else some (unresolved raw_url host run)
      ]

  unfoldable pub url_steps : List Str → Run → Option Run
  unfolding url_step
  url_steps [] run = some run
  url_steps (raw_url ∷ urls) run = url_step raw_url run >>= λ next. url_steps urls next
