-- ===== src/Service/Reach/Writing.antt =====
-- The writes of the probes of a Service's URLs (internal/check/service_runtime.go).
use kube_net_mods.Prelude.{
  not, ◌||◌, ◌≢◌, inl, inr, List, [], ◌∷◌, Option, none, some, Str, Option-cases, Bool-cases,
  if◌then◌else◌, is_empty, any, str_eq, codes,
}
use kube_net_mods.Model.{Report, pass, fail, warn, skip, add}
use kube_net_mods.Model.Laws.{Writes}
use kube_net_mods.Model.Steps.{
  add-Writes, noted-Writes, diagnosed-Writes, if-Writes, Ends, if-Ends, >>=-Ends,
}
use kube_net_mods.Cluster.{Pod, Service}
use kube_net_mods.Runtime.Exec.{Exec, resolve_host, curl_url}
use kube_net_mods.Runtime.Probe.{
  ExecTarget, HttpResult, Classification, is_runtime_unavailable_text,
  classify_runtime_http_failure, runtime_probe_failure_message,
}
use kube_net_mods.Service.Endpoints.{has_diagnosis_containing}
use kube_net_mods.Istio.Request.{ServiceOptions, new_request}
use kube_net_mods.Istio.Mtls.Checks.{
  inspect_istio_mtls_reset, inspect_istio_destination_rule_mtls_mismatch,
}
use kube_net_mods.Istio.Traffic.Intentional.Inspect.{Found}
use kube_net_mods.Istio.Traffic.Writing.{intentional-Ends}
use kube_net_mods.Istio.Signal.{
  Environment, Signal, classify_istio_runtime, inspect_istio_runtime_signal, configs, peers,
}
use kube_net_mods.Istio.Signal.Writing.{reset-Writes, mismatch-Ends, scope-Writes, signal-Ends}
use kube_net_mods.Service.Reach.Route.{
  Run, same_signal, route_layer, with_report, explain_signal, intentional, reached_report,
  url_answered, unexplained, path_diagnosis, url_explained, failed_report, classified, url_noted,
  url_failed, host_from_url,
}
use kube_net_mods.Service.Reach.Route.Steps.{curl_step, unresolved, url_step, url_steps}

module _ (E : Environment) (opts : ServiceOptions) (service : Service) (pods : List Pod)
    (source : ExecTarget)
    (given : (raw_url : Str)
      → new_request E.urls opts (some service) (some source.pod) raw_url ≢ none) where
  -- The run goes on, and what it wrote is a sequence of writes.
  abbrev pub Runs : Report → Option Run → Type 0
  Runs r run = Ends (λ x. x.report) r run

  pub explain_signal-Ends :
      {r : Report} (raw_url : Str) (answer : HttpResult) (signal : Signal) (run : Run)
      → Writes r run.report
      → Ends (λ x. x.report) r (explain_signal E opts service pods source raw_url answer signal run)
  unfolding explain_signal
  explain_signal-Ends {r} raw_url answer signal run w =
      if-Ends (λ x. x.report) r (any (same_signal signal) run.signals) (some run) _ w
        (>>=-Ends (λ t. t) (λ x. x.report) r
          (inspect_istio_runtime_signal E opts service pods source.pod raw_url answer signal
            run.report)
          _ (signal-Ends E opts service pods source.pod raw_url answer signal (given raw_url) w)
          (λ report v. v))

  pub intentionally-Ends :
      {r : Report} (raw_url : Str) (answer : HttpResult) (run : Run)
      → Writes r run.report
      → Ends (λ f. f.report) r (intentional E opts service pods source raw_url answer run)
  intentionally-Ends raw_url answer run w =
      intentional-Ends E.floats E.fixed_text E.duration_text E.regexps E.selectors service answer
        (configs E) E.urls opts (some source.pod) raw_url run.routes (given raw_url) w

  reached-Writes :
      {r : Report} (raw_url : Str) (answer : HttpResult) (run : Run) (found : Found)
      → Writes r found.report
      → Writes r (reached_report E opts service pods source raw_url answer run found).report
  unfolding reached_report
  reached-Writes raw_url answer run found w = elim (Option-cases found.behavior) [
    | inl e ↦ rw (e, reached_report) (add-Writes _ _ pass _ w)
    | inr (b, e) ↦ rw (e, reached_report) (add-Writes _ _ b.runtime_status _ w)
  ]

  answered-Ends :
      {r : Report} (raw_url : Str) (answer : HttpResult) (run : Run)
      → Writes r run.report
      → Ends (λ x. x.report) r (url_answered E opts service pods source raw_url answer run)
  unfolding url_answered
  answered-Ends {r} raw_url answer run w =
      elim (Option-cases (classify_istio_runtime answer (some source.pod) pods)) [
        | inl e ↦
            rw (e, url_answered)
              (>>=-Ends (λ f. f.report) (λ x. x.report) r
                (intentional E opts service pods source raw_url answer run) _
                (intentionally-Ends raw_url answer run w)
                (λ found v. reached-Writes raw_url answer run found v))
        | inr (signal, e) ↦
            rw (e, url_answered)
              (explain_signal-Ends raw_url answer signal _ (add-Writes _ _ fail _ w))
      ]

  path-Writes :
      {r s : Report} (raw_url : Str) (answer : HttpResult)
      → Writes r s
      → Writes r (path_diagnosis E opts service pods source raw_url answer s)
  unfolding path_diagnosis
  path-Writes {s} raw_url answer w =
      if-Writes (unexplained E opts service pods source s) (diagnosed-Writes _ w) w

  explained-Ends :
      {r s : Report} (raw_url : Str) (answer : HttpResult)
      → Writes r s
      → Ends (λ t. t) r (url_explained E opts service pods source raw_url answer s)
  unfolding url_explained
  explained-Ends {r} {s} raw_url answer w =
      let reset =
        inspect_istio_mtls_reset E.selectors (peers E) service pods source.pod s.target.service_port
          answer s in
      let reset_w =
        reset-Writes E.selectors (peers E) service pods source.pod s.target.service_port answer w in
      if-Ends (λ t. t) r reset.1 (some reset.0) _ reset_w
        (>>=-Ends (λ t. t.0) (λ t. t) r
          (inspect_istio_destination_rule_mtls_mismatch E.selectors (peers E) service pods
            source.pod E.regexps (configs E) E.urls opts raw_url answer reset.0)
          _
          (mismatch-Ends E.selectors (peers E) service pods source.pod E.regexps (configs E) E.urls
            opts raw_url answer (given raw_url) reset_w)
          (λ mismatch v.
            let scope_w =
              scope-Writes E.selectors (if E.connected then some E.sidecars else none) service
                source.pod v in
            if-Writes mismatch.1 v (if-Writes _ scope_w (path-Writes raw_url answer scope_w))))

  failed-Ends :
      {r : Report} (raw_url : Str) (answer : HttpResult) (run : Run) (found : Found)
      → Writes r found.report
      → Ends (λ x. x.report) r (failed_report E opts service pods source raw_url answer run found)
  unfolding failed_report
  failed-Ends {r} raw_url answer run found w = elim (Option-cases found.behavior) [
    | inl e ↦
        rw (e, failed_report)
          (>>=-Ends (λ t. t) (λ x. x.report) r
            (url_explained E opts service pods source raw_url answer found.report) _
            (explained-Ends raw_url answer w) (λ report v. v))
    | inr (b, e) ↦ rw (e, failed_report) (add-Writes _ _ b.runtime_status _ w)
  ]

  classified-Writes :
      {r s : Report} (raw_url : Str) (class : Classification)
      → Writes r s
      → Writes r (classified E opts service pods source raw_url class s)
  unfolding classified
  classified-Writes {s} raw_url class w =
      if-Writes (has_diagnosis_containing s class.summary) w (diagnosed-Writes _ w)

  pub noted-Ends :
      {r : Report} (raw_url : Str) (answer : HttpResult) (noted : Run)
      → Writes r noted.report
      → Ends
          (λ x. x.report)
          r
          (url_noted E opts service pods source raw_url answer
            (classify_runtime_http_failure answer)
            noted)
  unfolding url_noted
  noted-Ends {r} raw_url answer noted w =
      let class = classify_runtime_http_failure answer in
      if-Ends (λ x. x.report) r (not (is_empty class.diagnosis)) _ _
        (classified-Writes raw_url class w)
        (>>=-Ends (λ f. f.report) (λ x. x.report) r
          (intentional E opts service pods source raw_url answer noted) _
          (intentionally-Ends raw_url answer noted w)
          (λ found v. failed-Ends raw_url answer noted found v))

  url_failed-Ends :
      {r : Report} (raw_url : Str) (answer : HttpResult) (run : Run)
      → Writes r run.report
      → Ends (λ x. x.report) r (url_failed E opts service pods source raw_url answer run)
  unfolding url_failed
  url_failed-Ends {r} raw_url answer run w =
      let class = classify_runtime_http_failure answer in
      let message = runtime_probe_failure_message source raw_url answer class in
      let noted = with_report run (add run.report route_layer raw_url fail message) in
      if-Ends (λ x. x.report) r (str_eq class.kind (codes "runtime-unavailable")) _ _
        (noted-Writes _ _ warn _ _ w)
        (noted-Ends raw_url answer noted (add-Writes route_layer raw_url fail message w))

  module _ (exec : Exec) where
    curl-Ends :
        {r : Report} (raw_url : Str) (run : Run)
        → Writes r run.report
        → Ends (λ x. x.report) r (curl_step E opts service pods source exec raw_url run)
    unfolding curl_step
    curl-Ends {r} raw_url run w =
        let answer = curl_url exec raw_url opts.timeout opts.http_headers in
        if-Ends (λ x. x.report) r answer.ok _ _ (answered-Ends raw_url answer run w)
          (url_failed-Ends raw_url answer run w)

    unresolved-Writes :
        {r : Report} (raw_url host : Str) (run : Run)
        → Writes r run.report
        → Writes r (unresolved E opts service pods source exec raw_url host run).report
    unfolding unresolved
    unresolved-Writes raw_url host run w =
        let failed_w = add-Writes _ _ fail _ w in
        add-Writes _ _ skip _ (if-Writes _ failed_w (diagnosed-Writes _ failed_w))

    pub url_step-Ends :
        {r : Report} (raw_url : Str) (run : Run)
        → Writes r run.report
        → Ends (λ x. x.report) r (url_step E opts service pods source exec raw_url run)
    unfolding url_step
    url_step-Ends {r} raw_url run w =
        let host = host_from_url E.urls raw_url in
        elim (Bool-cases (is_empty host || str_eq host service.cluster_ip)) [
          | inl h ↦ rw (h, url_step) (curl-Ends raw_url run w)
          | inr h ↦ elim (Option-cases (resolve_host exec host)) [
            | inl k ↦ rw (h, k, url_step) (curl-Ends raw_url _ (add-Writes _ _ pass _ w))
            | inr (error, k) ↦
                rw (h, k, url_step)
                  (if-Ends (λ x. x.report) r (is_runtime_unavailable_text error) _ _
                    (curl-Ends raw_url _ (noted-Writes _ _ warn _ _ w))
                    (unresolved-Writes raw_url host run w))
          ]
        ]

    pub url_steps-Ends :
        {r : Report} (urls : List Str) (run : Run)
        → Writes r run.report
        → Ends (λ x. x.report) r (url_steps E opts service pods source exec urls run)
    unfolding url_steps
    url_steps-Ends [] run w = w
    url_steps-Ends {r} (raw_url ∷ urls) run w =
        >>=-Ends (λ x. x.report) (λ x. x.report) r
          (url_step E opts service pods source exec raw_url run) _ (url_step-Ends raw_url run w)
          (λ next v. url_steps-Ends urls next v)
