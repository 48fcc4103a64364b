-- ===== src/Service/Reach/Progress.antt =====
-- The results for the URLs that checkRuntimePath tries (internal/check/service_runtime.go).
use kube_net_mods.Prelude.{
  Bool, true, false, ◌||◌, ◌&&◌, ◌>>=◌, ◌≡◌, ◌≢◌, inl, inr, List, [], ◌∷◌, Option, none, some, Str,
  Option-cases, Bool-cases, if◌then◌else◌, is_empty, any-append, ◌∙◌, str_eq, str_eq_refl, codes,
  Each, mem_inv, arith,
}
use kube_net_mods.Model.{
  Report, Result, Status, pass, fail, warn, skip, add, add_categorized, diagnose, diagnosed, entry,
}
use kube_net_mods.Model.Laws.{Writes, start, result, diagnosis}
use kube_net_mods.Model.Steps.{Ends}
use kube_net_mods.Cluster.{Pod, Service}
use kube_net_mods.Runtime.Exec.{Exec, resolve_host, curl_url}
use kube_net_mods.Runtime.Probe.{
  ExecTarget, HttpResult, is_runtime_unavailable_text, classify_runtime_http_failure,
  runtime_probe_failure_message,
}
use kube_net_mods.Istio.Request.{ServiceOptions, new_request}
use kube_net_mods.Istio.Mtls.Checks.{report_has_result}
use kube_net_mods.Istio.Traffic.Intentional.Inspect.{Found}
use kube_net_mods.Istio.Signal.{Environment, classify_istio_runtime, istio_runtime_message}
use kube_net_mods.Service.Reach.Route.{
  Run, route_layer, with_report, intentional, explain_signal, reached_report, url_answered,
  url_noted, url_failed, host_from_url,
}
use kube_net_mods.Service.Reach.Route.Steps.{curl_step, unresolved, url_step, url_steps}
use kube_net_mods.Service.Reach.Writing.{
  explain_signal-Ends, intentionally-Ends, noted-Ends, url_step-Ends, url_steps-Ends,
}

-- The report has a result of the runtime layer for the URL.
abbrev pub Has : Str → Report → Type 0
Has raw_url report = report_has_result report route_layer raw_url ≡ true

abbrev is_its : Str → Result → Bool
is_its raw_url r = str_eq r.layer route_layer && str_eq r.check raw_url

-- No write takes a result away.
pub Writes-Has : {r s : Report} (raw_url : Str) → Writes r s → Has raw_url r → Has raw_url s
unfolding report_has_result add_categorized diagnose
Writes-Has raw_url start h = h
Writes-Has raw_url (result {s} layer check status category message w) h =
    let before = Writes-Has raw_url w h in
    any-append (is_its raw_url) s.results (entry layer check status category message ∷ [])
    ∙ ground (arith, before)
Writes-Has raw_url (diagnosis {s} message w) h = elim (Bool-cases (diagnosed s.diagnoses message)) [
  | inl e ↦ rw (e, diagnose) (Writes-Has raw_url w h)
  | inr e ↦ rw (e, diagnose) (Writes-Has raw_url w h)
]

noted-Has :
    (s : Report) (raw_url : Str) (status : Status) (category message : Str)
    → Has raw_url (add_categorized s route_layer raw_url status category message)
unfolding report_has_result add_categorized
noted-Has s raw_url status category message =
    any-append (is_its raw_url) s.results (entry route_layer raw_url status category message ∷ [])
    ∙ ground (arith, str_eq_refl raw_url, str_eq_refl route_layer)

module _ {A : Type 0} (report : A → Report) (raw_url : Str) where
  -- What is returned has a result for the URL.
  abbrev pub Shows : Option A → Type 0
  Shows none = ⊥
  Shows (some a) = Has raw_url (report a)

  Ends-Shows : (r : Report) (o : Option A) → Has raw_url r → Ends report r o → Shows o
  Ends-Shows r none h w = absurd w
  Ends-Shows r (some a) h w = Writes-Has raw_url w h

  if-Shows : (b : Bool) (o p : Option A) → Shows o → Shows p → Shows (if b then o else p)
  if-Shows true o p h k = h
  if-Shows false o p h k = k

pub then-Shows :
    {A B : Type 0} (first : A → Report) (second : B → Report) (raw_url : Str) (r : Report)
    (o : Option A) (f : A → Option B)
    → Ends first r o
    → ((a : A) → Shows second raw_url (f a))
    → Shows second raw_url (o >>= f)
then-Shows first second raw_url r none f w next = absurd w
then-Shows first second raw_url r (some a) f w next = next a

pub keep-Shows :
    {A B : Type 0} (first : A → Report) (second : B → Report) (raw_url : Str) (o : Option A)
    (f : A → Option B)
    → Shows first raw_url o
    → ((a : A) → Ends second (first a) (f a))
    → Shows second raw_url (o >>= f)
keep-Shows first second raw_url none f h next = absurd h
keep-Shows first second raw_url (some a) f h next =
    Ends-Shows second raw_url (first a) (f a) h (next a)

module _ (E : Environment) (opts : ServiceOptions) (service : Service) (pods : List Pod)
    (source : ExecTarget)
    (given : (raw_url : Str)
      → new_request E.urls opts (some service) (some source.pod) raw_url ≢ none) where
  reached-Has :
      (raw_url : Str) (answer : HttpResult) (run : Run) (found : Found)
      → Has raw_url (reached_report E opts service pods source raw_url answer run found).report
  unfolding reached_report
  reached-Has raw_url answer run found = elim (Option-cases found.behavior) [
    | inl e ↦ rw (e, reached_report) (noted-Has found.report raw_url pass [] _)
    | inr (b, e) ↦ rw (e, reached_report) (noted-Has found.report raw_url b.runtime_status [] _)
  ]

  answered-Shows :
      (raw_url : Str) (answer : HttpResult) (run : Run)
      → Shows (λ x. x.report) raw_url (url_answered E opts service pods source raw_url answer run)
  unfolding url_answered
  answered-Shows raw_url answer run =
      elim (Option-cases (classify_istio_runtime answer (some source.pod) pods)) [
        | inl e ↦
            rw (e, url_answered)
              (then-Shows (λ f. f.report) (λ x. x.report) raw_url run.report
                (intentional E opts service pods source raw_url answer run) _
                (intentionally-Ends E opts service pods source given raw_url answer run start)
                (λ found. reached-Has raw_url answer run found))
        | inr (signal, e) ↦
            let noted = with_report run (
              add run.report route_layer raw_url fail
                (istio_runtime_message source raw_url answer (some signal))) in
            rw (e, url_answered)
              (Ends-Shows (λ x. x.report) raw_url noted.report
                (explain_signal E opts service pods source raw_url answer signal noted)
                (noted-Has run.report raw_url fail [] _)
                (explain_signal-Ends E opts service pods source given raw_url answer signal noted
                  start))
      ]

  failed-Shows :
      (raw_url : Str) (answer : HttpResult) (run : Run)
      → Shows (λ x. x.report) raw_url (url_failed E opts service pods source raw_url answer run)
  unfolding url_failed
  failed-Shows raw_url answer run =
      let class = classify_runtime_http_failure answer in
      let message = runtime_probe_failure_message source raw_url answer class in
      let noted = with_report run (add run.report route_layer raw_url fail message) in
      if-Shows (λ x. x.report) raw_url (str_eq class.kind (codes "runtime-unavailable")) _ _
        (noted-Has run.report raw_url warn _ _)
        (Ends-Shows (λ x. x.report) raw_url noted.report
          (url_noted E opts service pods source raw_url answer class noted)
          (noted-Has run.report raw_url fail [] message)
          (noted-Ends E opts service pods source given raw_url answer noted start))

  module _ (exec : Exec) where
    curl-Shows :
        (raw_url : Str) (run : Run)
        → Shows (λ x. x.report) raw_url (curl_step E opts service pods source exec raw_url run)
    unfolding curl_step
    curl-Shows raw_url run =
        let answer = curl_url exec raw_url opts.timeout opts.http_headers in
        if-Shows (λ x. x.report) raw_url answer.ok _ _ (answered-Shows raw_url answer run)
          (failed-Shows raw_url answer run)

    unresolved-Has :
        (raw_url host : Str) (run : Run)
        → Has raw_url (unresolved E opts service pods source exec raw_url host run).report
    unfolding unresolved
    unresolved-Has raw_url host run = noted-Has _ raw_url skip [] _

    url_step-Shows :
        (raw_url : Str) (run : Run)
        → Shows (λ x. x.report) raw_url (url_step E opts service pods source exec raw_url run)
    unfolding url_step
    url_step-Shows raw_url run =
        let host = host_from_url E.urls raw_url in
        elim (Bool-cases (is_empty host || str_eq host service.cluster_ip)) [
          | inl h ↦ rw (h, url_step) (curl-Shows raw_url run)
          | inr h ↦ elim (Option-cases (resolve_host exec host)) [
            | inl k ↦ rw (h, k, url_step) (curl-Shows raw_url _)
            | inr (error, k) ↦
                rw (h, k, url_step)
                  (if-Shows (λ x. x.report) raw_url (is_runtime_unavailable_text error) _ _
                    (curl-Shows raw_url _) (unresolved-Has raw_url host run))
          ]
        ]

    pub url_steps-Shows :
        (urls : List Str) (run : Run)
        → Each
            (λ raw_url.
              Shows (λ x. x.report) raw_url (url_steps E opts service pods source exec urls run))
            urls
    unfolding url_steps
    url_steps-Shows [] run raw_url m = elim m [ ]
    url_steps-Shows (u ∷ us) run raw_url m = elim (mem_inv m) [
      | inl e ↦ rw e (
          keep-Shows (λ x. x.report) (λ x. x.report) u
            (url_step E opts service pods source exec u run) _ (url_step-Shows u run)
            (λ next. url_steps-Ends E opts service pods source given exec us next start))
      | inr later ↦
          then-Shows (λ x. x.report) (λ x. x.report) raw_url run.report
            (url_step E opts service pods source exec u run) _
            (url_step-Ends E opts service pods source given exec u run start)
            (λ next. url_steps-Shows us next raw_url later)
    ]
