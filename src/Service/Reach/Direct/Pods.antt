-- ===== src/Service/Reach/Direct/Pods.antt =====
-- The writes of the probes of the pods (internal/check/service_runtime.go).
use kube_net_mods.Prelude.{
  not, ◌&&◌, ◌≢◌, inl, inr, List, [], ◌∷◌, none, some, Str, Option-cases, is_empty, str_eq, codes,
  ℤ,
}
use kube_net_mods.Model.{Report, pass, fail, warn, info}
use kube_net_mods.Model.Laws.{Writes}
use kube_net_mods.Model.Steps.{
  add-Writes, noted-Writes, diagnosed-Writes, if-Writes, Ends, if-Ends, >>=-Ends,
}
use kube_net_mods.Cluster.{Pod, Service}
use kube_net_mods.Runtime.Exec.{Exec, curl_url}
use kube_net_mods.Runtime.Urls.{url, normal_path}
use kube_net_mods.Runtime.Probe.{
  ExecTarget, HttpResult, Classification, classify_runtime_http_failure,
  direct_pod_probe_failure_message,
}
use kube_net_mods.Service.Endpoints.{has_diagnosis_containing}
use kube_net_mods.Istio.Request.{ServiceOptions, new_request}
use kube_net_mods.Istio.Signal.{Environment, path_has_istio_sidecar, classify_istio_runtime, peers}
use kube_net_mods.Istio.Signal.Writing.{reset-Writes}
use kube_net_mods.Service.Reach.Route.{Run}
use kube_net_mods.Service.Reach.Writing.{explain_signal-Ends}
use kube_net_mods.Service.Reach.Direct.{
  pod_layer, check_of, pod_diagnosis, pod_classified, pod_explained, pod_failed, pod_answered,
  pod_step, pod_steps,
}

module _ (E : Environment) (opts : ServiceOptions) (service : Service) (pods : List Pod)
    (source : ExecTarget)
    (given : (raw_url : Str)
      → new_request E.urls opts (some service) (some source.pod) raw_url ≢ none)
    (exec : Exec) (port : ℤ) where
  pod_diagnosis-Writes :
      {r s : Report} (pod : Pod) (raw_url : Str)
      → Writes r s
      → Writes r (pod_diagnosis E opts service pods source exec port pod raw_url s)
  unfolding pod_diagnosis
  pod_diagnosis-Writes pod raw_url w = if-Writes _ w (diagnosed-Writes _ w)

  pod_explained-Writes :
      {r s : Report} (pod : Pod) (raw_url : Str) (answer : HttpResult)
      → Writes r s
      → Writes r (pod_explained E opts service pods source exec port pod raw_url answer s)
  unfolding pod_explained
  pod_explained-Writes {s} pod raw_url answer w =
      let reset_w =
        reset-Writes E.selectors (peers E) service pods source.pod s.target.service_port answer w in
      if-Writes _ reset_w (pod_diagnosis-Writes pod raw_url reset_w)

  pod_classified-Writes :
      {r s : Report} (raw_url : Str) (class : Classification)
      → Writes r s
      → Writes r (pod_classified E opts service pods source exec port raw_url class s)
  unfolding pod_classified
  pod_classified-Writes {s} raw_url class w =
      if-Writes (has_diagnosis_containing s class.summary) w (diagnosed-Writes _ w)

  pod_failed-Writes :
      {r : Report} (pod : Pod) (raw_url : Str) (answer : HttpResult) (run : Run)
      → Writes r run.report
      → Writes r (pod_failed E opts service pods source exec port pod raw_url answer run).report
  unfolding pod_failed
  pod_failed-Writes pod raw_url answer run w =
      let class = classify_runtime_http_failure answer in
      let check = check_of E opts service pods source exec port pod in
      let message = direct_pod_probe_failure_message source raw_url answer class in
      let failed_w = add-Writes pod_layer check fail message w in
      if-Writes (str_eq class.kind (codes "runtime-unavailable"))
        (noted-Writes pod_layer check warn (codes "runtime-unavailable") message w)
        (if-Writes (run.succeeded && path_has_istio_sidecar (some source.pod) pods)
          (add-Writes pod_layer check info _ w)
          (if-Writes (not (is_empty class.diagnosis)) (pod_classified-Writes raw_url class failed_w)
            (pod_explained-Writes pod raw_url answer failed_w)))

  pod_answered-Ends :
      {r : Report} (pod : Pod) (raw_url : Str) (answer : HttpResult) (run : Run)
      → Writes r run.report
      → Ends
          (λ x. x.report)
          r
          (pod_answered E opts service pods source exec port pod raw_url answer run)
  unfolding pod_answered
  pod_answered-Ends pod raw_url answer run w =
      elim (Option-cases (classify_istio_runtime answer (some source.pod) pods)) [
        | inl e ↦ rw (e, pod_answered) (add-Writes _ _ pass _ w)
        | inr (signal, e) ↦
            rw (e, pod_answered)
              (explain_signal-Ends E opts service pods source given raw_url answer signal _
                (add-Writes _ _ fail _ w))
      ]

  pod_step-Ends :
      {r : Report} (pod : Pod) (run : Run)
      → Writes r run.report
      → Ends (λ x. x.report) r (pod_step E opts service pods source exec port pod run)
  unfolding pod_step
  pod_step-Ends {r} pod run w =
      let raw_url = url opts.url_scheme pod.pod_ip port (normal_path opts.url_path) in
      let answer = curl_url exec raw_url opts.timeout opts.http_headers in
      if-Ends (λ x. x.report) r _ (some run) _ w
        (if-Ends (λ x. x.report) r answer.ok _ _ (pod_answered-Ends pod raw_url answer run w)
          (pod_failed-Writes pod raw_url answer run w))

  pub pod_steps-Ends :
      {r : Report} (rest : List Pod) (run : Run)
      → Writes r run.report
      → Ends (λ x. x.report) r (pod_steps E opts service pods source exec port rest run)
  unfolding pod_steps
  pod_steps-Ends [] run w = w
  pod_steps-Ends {r} (pod ∷ rest) run w =
      >>=-Ends (λ x. x.report) (λ x. x.report) r
        (pod_step E opts service pods source exec port pod run) _ (pod_step-Ends pod run w)
        (λ next v. pod_steps-Ends rest next v)
