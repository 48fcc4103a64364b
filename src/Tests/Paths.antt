-- ===== src/Tests/Paths.antt =====
-- The laws of the runtime path and of Istio's routing at the mesh of Meshed.
use kube_net_mods.Prelude.{
  ℤ, Str, decimal, ◌++◌, arith, ◌≡◌, ◌↔◌, refl, true, false, [], ◌∷◌, Option, none, some, codes,
  pos, is_some, str_eq, Each, Exists, not, find,
}
use kube_net_mods.Model.{Report, new_report}
use kube_net_mods.Istio.Request.{new_request}
use kube_net_mods.Istio.Client.{
  list_istio_configs, istio_config_namespaces, istio_service_path_virtual_services,
  istio_service_path_destination_rules,
}
use kube_net_mods.Istio.Mtls.{PeerAuthentication, strict, permissive, has_selector, selected_from}
use kube_net_mods.Istio.Signal.{no_healthy_upstream, classify_istio_runtime, configs, peers}
use kube_net_mods.Runtime.Exec.{curl_url}
use kube_net_mods.Runtime.Probe.{HttpResult}
use kube_net_mods.Model.Laws.{Writes}
use kube_net_mods.Service.Selection.{select_service_port}
use kube_net_mods.Service.Reach.Route.{route_layer}
use kube_net_mods.Service.Reach.Direct.{check_runtime_path}
use kube_net_mods.Service.Reach.Direct.Laws.{check_runtime_path-Writes}
use kube_net_mods.Service.Reach.Direct.Progress.{tried, check_runtime_path-Reported}
use kube_net_mods.Istio.Traffic.Routing.{
  Issue, has_target_backend_diagnosis, routing_verdict, inspect_istio_traffic_routing,
}
use kube_net_mods.Istio.Traffic.Routing.Broken.{Breaks}
use kube_net_mods.Istio.Traffic.Routing.Verdict.{inspect_istio_traffic_routing_verdict}
use kube_net_mods.Istio.Traffic.Weighted.{first_risk}
use kube_net_mods.Istio.Traffic.Weighted.Laws.{Risky, first_risk_iff}
use kube_net_mods.Istio.Signal.Laws.{Answers, classify_istio_runtime_iff}
use kube_net_mods.Istio.Mtls.Choice.{or_else, selects, selected_from_first}
use kube_net_mods.Istio.Mtls.Checks.{report_has_result, inspect_istio_mtls_reset}
use kube_net_mods.Istio.Mtls.Checks.Twice.{inspect_istio_mtls_reset_twice}
use kube_net_mods.Istio.Traffic.Intentional.{istio_delay_text}
use kube_net_mods.Istio.Traffic.Intentional.Delays.{lasting, total, shown, istio_delay_text_bounds}
use kube_net_mods.Tests.Data.{
  integers, label_sets, literal_regexps, plain_urls, app, http_port, client, server, web, options,
  empty_report,
}
use kube_net_mods.Tests.Meshed.{
  labelled, web_rule, in_prod, strict_web, environment, envoy, shell, asked, seen, root_url,
}

check_runtime_path-Writes_example :
    (s : Report) × (check_runtime_path environment options
        (server ∷ [])
        envoy
        (some web)
        (some shell)
        empty_report
      ≡ some s)
    × Writes empty_report s
check_runtime_path-Writes_example =
    check_runtime_path-Writes environment options (server ∷ []) envoy web (some shell) empty_report
      (λ e. cc)

check_runtime_path-Reported_example :
    (s : Report) × (check_runtime_path environment options
        (server ∷ [])
        envoy
        (some web)
        (some shell)
        empty_report
      ≡ some s)
    × Each
        (λ raw_url. report_has_result s route_layer raw_url ≡ true)
        (tried options web empty_report)
unfolding select_service_port new_report str_eq
check_runtime_path-Reported_example =
    check_runtime_path-Reported environment options (server ∷ []) envoy web shell empty_report
      http_port (λ e. cc) refl refl

inspect_istio_traffic_routing_verdict_example :
    (issue : Option Issue) × (inspect_istio_traffic_routing label_sets web
        (server ∷ [])
        literal_regexps
        (configs environment)
        plain_urls
        options
        client
        root_url
        empty_report
      ≡ some (routing_verdict label_sets web (server ∷ []) empty_report issue))
    × ((is_some issue ≡ true)
        ↔ Exists (Breaks label_sets web (server ∷ []) (web_rule ∷ []) literal_regexps asked) seen)
unfolding list_istio_configs istio_config_namespaces has_target_backend_diagnosis new_report
    new_request istio_service_path_destination_rules istio_service_path_virtual_services str_eq
inspect_istio_traffic_routing_verdict_example =
    inspect_istio_traffic_routing_verdict label_sets web (server ∷ []) literal_regexps
      (configs environment) plain_urls options client root_url empty_report
      (some (labelled (codes "v2")) ∷ []) (some web_rule ∷ []) asked refl refl refl refl refl

first_risk_iff_example :
    ((first_risk label_sets web
        (server ∷ [])
        strict
        (pos 80)
        literal_regexps
        (web_rule ∷ [])
        asked
        empty_report
        seen).1
      ≡ true)
    ↔ Exists
        (Risky label_sets web (server ∷ []) strict (pos 80) (web_rule ∷ []) literal_regexps asked)
        seen
first_risk_iff_example =
    first_risk_iff label_sets web (server ∷ []) strict (pos 80) (web_rule ∷ []) literal_regexps
      asked empty_report seen

abbrev unhealthy : HttpResult
unhealthy = curl_url envoy root_url (pos 5) []

classify_istio_runtime_iff_example :
    (classify_istio_runtime unhealthy (some client) (server ∷ []) ≡ some no_healthy_upstream)
    ↔ Answers unhealthy (some client) (server ∷ []) no_healthy_upstream
classify_istio_runtime_iff_example =
    classify_istio_runtime_iff unhealthy (some client) (server ∷ []) no_healthy_upstream

abbrev for_web : PeerAuthentication
for_web = record strict_web { selector = app (codes "web"); mode = permissive }

selected_from_first_example :
    selected_from
      (in_prod strict_web)
      (pos 8080)
      label_sets
      (server ∷ [])
      none
      (strict_web ∷ for_web ∷ [])
    ≡ or_else
        (find
          (selects (in_prod strict_web) (pos 8080) label_sets (server ∷ []))
          (strict_web ∷ for_web ∷ []))
        (or_else none (find (λ item. not (has_selector item)) (strict_web ∷ for_web ∷ [])))
selected_from_first_example =
    selected_from_first (in_prod strict_web) (pos 8080) label_sets (server ∷ []) none
      (strict_web ∷ for_web ∷ [])

abbrev was_reset : HttpResult
was_reset = record {
  url = root_url;
  ok = false;
  status_code = codes "unknown";
  output = [];
  error = codes "curl: (56) Recv failure: Connection reset by peer";
}

inspect_istio_mtls_reset_twice_example :
    inspect_istio_mtls_reset label_sets
      (peers environment)
      web
      (server ∷ [])
      client
      (pos 80)
      was_reset
      (inspect_istio_mtls_reset label_sets
        (peers environment)
        web
        (server ∷ [])
        client
        (pos 80)
        was_reset
        empty_report).0
    ≡ inspect_istio_mtls_reset label_sets
        (peers environment)
        web
        (server ∷ [])
        client
        (pos 80)
        was_reset
        empty_report
inspect_istio_mtls_reset_twice_example =
    inspect_istio_mtls_reset_twice label_sets (peers environment) web (server ∷ []) client (pos 80)
      was_reset empty_report

-- A duration in nanoseconds as a text
abbrev duration : ℤ → Str
duration value = decimal value ++ codes "ns"

-- A delay of 9 223 372 037 seconds, beyond int64 in nanoseconds.
istio_delay_text_bounds_example :
    (istio_delay_text integers (λ v. []) duration (some (lasting 9_223_372_037 0)) none
      ≡ shown integers (λ v. []) duration (total 9_223_372_037 0))
    × (istio_delay_text integers (λ v. []) duration none (some (lasting 9_223_372_037 0))
        ≡ codes "exponential delay around "
          ++ shown integers (λ v. []) duration (total 9_223_372_037 0))
istio_delay_text_bounds_example =
    istio_delay_text_bounds integers (λ v. []) duration 9_223_372_037 0 none (omega arith)
