-- ===== src/Istio/Mtls/Checks.antt =====
-- inspectIstioMTLSReset and inspectIstioDestinationRuleMTLSMismatch (internal/check/istio_mtls.go).
pub mod Twice
use kube_net_mods.Prelude.{
  Bool, true, false, not, ◌||◌, ◌&&◌, List, [], ◌∷◌, ◌++◌, Option, none, some, Str, codes, str_eq,
  is_empty, if◌then◌else◌, any, contains, to_lower, ℤ, is_pos, quote, decimal, sprintf,
}
use kube_net_mods.Model.{Report, fail, add, diagnose}
use kube_net_mods.Cluster.{Pod, Service, Selectors}
use kube_net_mods.Native.Path.{service_name}
use kube_net_mods.Runtime.Probe.{HttpResult}
use kube_net_mods.Calico.Value.{Floats}
use kube_net_mods.Istio.Request.{Urls, ServiceOptions, Request, new_request}
use kube_net_mods.Istio.Matching.{Regexps}
use kube_net_mods.Istio.Client.{
  Answer, items, not_found, failed, list_istio_configs, istio_config_namespaces,
  istio_service_path_virtual_services, istio_service_path_destination_rules,
}
use kube_net_mods.Istio.Config.{
  TlsMode, disable, simple, mutual_tls, istio_mutual, VirtualService, DestinationRule,
}
use kube_net_mods.Istio.Sidecar.{pod_has_istio_sidecar}
use kube_net_mods.Istio.Traffic.{
  RouteDestination, istio_host_matches_service, find_destination_rule,
  istio_virtual_service_hosts_service, istio_route_destinations,
}
use kube_net_mods.Istio.Traffic.Routing.{Configs, config_name}
use kube_net_mods.Istio.Mtls.{
  PeerAuthentication, EffectiveMode, is_strict, effective_peer_authentication_for_pods,
  destination_rule_tls_mode_for_subset,
}

-- The text that a runtime result is searched in
abbrev pub failure_text : HttpResult → Str
failure_text result = to_lower (result.error ++ codes " " ++ result.output)

unfoldable pub runtime_looks_like_connection_reset : HttpResult → Bool
unfolding contains to_lower
runtime_looks_like_connection_reset result =
    contains (failure_text result) (codes "connection reset by peer")
    || contains (failure_text result) (codes "recv failure")
    || contains (failure_text result) (codes "connection reset")
    || contains (failure_text result) (codes "reset reason")

unfoldable pub report_has_result : Report → Str → Str → Bool
unfolding str_eq
report_has_result report layer check =
    any (λ r. str_eq r.layer layer && str_eq r.check check) report.results

-- TLSmode.String()
abbrev pub tls_text : TlsMode → Str
tls_text disable = codes "DISABLE"
tls_text simple = codes "SIMPLE"
tls_text mutual_tls = codes "MUTUAL"
tls_text istio_mutual = codes "ISTIO_MUTUAL"

abbrev pub is_istio_mutual : TlsMode → Bool
is_istio_mutual istio_mutual = true
is_istio_mutual _ = false

-- destinationRuleTLSMode
pub record RuleTlsMode : Type 0 where
  pub mode : TlsMode
  pub rule : Str
  pub subset : Str
  pub port : ℤ

unfoldable pub scope_text : RuleTlsMode → Str
unfolding sprintf decimal
scope_text mode =
    let subset : Str =
      if is_empty mode.subset then [] else sprintf (codes " for subset %q") (mode.subset ∷ []) in
    if not (is_pos mode.port)
    then subset
    else if is_empty subset
    then sprintf (codes " for service port %d") (decimal mode.port ∷ [])
    else subset ++ sprintf (codes " on service port %d") (decimal mode.port ∷ [])

abbrev pub mtls_layer : Str
mtls_layer = codes "Istio mTLS Layer"

-- The peer authentications of the mesh and its root namespace
pub record Peers : Type 0 where
  pub connected : Bool
  pub root_namespace : Str
  pub authentications : Str → Answer (Option PeerAuthentication)

module _ (K : Selectors) (peers : Peers) (service : Service) (pods : List Pod) (source : Pod) where
  abbrev pub mode_for : ℤ → EffectiveMode
  mode_for port =
      effective_peer_authentication_for_pods peers.authentications K peers.root_namespace
        (some service) port pods

  -- The FAIL, unless it is there already; true in both cases.
  unfoldable pub once : Report → Str → Str → Str → Report × Bool
  unfolding report_has_result add diagnose
  once report check message diagnosis =
      if report_has_result report mtls_layer check
      then (report, true)
      else (diagnose (add report mtls_layer check fail message) diagnosis, true)

  -- The source is outside the mesh and the workload's mode is STRICT.
  unfoldable pub strict_reset : EffectiveMode → Report → Report × Bool
  unfolding once sprintf decimal
  strict_reset policy report =
      once report policy.name
        (sprintf
          (codes
            "Target workload for Service %q is under Istio STRICT mTLS for workload port %d via PeerAuthentication %s, but source pod %q is not in the mesh.")
          (service.name ∷ decimal policy.port ∷ policy.name ∷ source.name ∷ []))
        (sprintf
          (codes
            "Primary issue: Target workload is under Istio STRICT mTLS for workload port %d, but the source pod %q is not in the mesh. Add the source workload to the mesh or relax PeerAuthentication %q for this path.")
          (decimal policy.port ∷ (source.namespace ++ codes "/" ++ source.name) ∷ policy.name ∷ []))

  unfoldable pub inspect_istio_mtls_reset : ℤ → HttpResult → Report → Report × Bool
  unfolding strict_reset runtime_looks_like_connection_reset pod_has_istio_sidecar
      effective_peer_authentication_for_pods
  inspect_istio_mtls_reset service_port result report =
      let policy = mode_for service_port in
      if not peers.connected
        || not (runtime_looks_like_connection_reset result)
        || pod_has_istio_sidecar source
      then (report, false)
      else if not (is_strict policy.mode)
      then (report, false)
      else strict_reset policy report

  module _ (service_port : ℤ) (rules : List DestinationRule) where
    rule_mode : Str → Option DestinationRule → Option RuleTlsMode
    unfolding destination_rule_tls_mode_for_subset
    rule_mode subset none = none
    rule_mode subset (some rule) =
        elim (destination_rule_tls_mode_for_subset rule subset service_port) [
          | none ↦ none
          | some mode ↦ some (record {
            mode = mode;
            rule = config_name rule.namespace rule.name;
            subset = subset;
            port = service_port;
          })
        ]

    first_mode : Str → List RouteDestination → Option RuleTlsMode
    unfolding rule_mode istio_host_matches_service find_destination_rule
    first_mode namespace [] = none
    first_mode namespace (dest ∷ dests) =
        let later = first_mode namespace dests in
        let own =
          rule_mode dest.subset (find_destination_rule rules dest.host namespace (some service)) in
        if not (istio_host_matches_service dest.host namespace (some service))
        then later
        else elim own [ some mode ↦ some mode | none ↦ later ]

    -- The rule of the Service's own host, when no route gives a mode
    own_mode : Option RuleTlsMode
    unfolding rule_mode find_destination_rule
    own_mode = rule_mode [] (
        find_destination_rule rules
          (service.name ++ codes "." ++ service.namespace ++ codes ".svc.cluster.local")
          service.namespace (some service))

    module _ {F : Floats} (R : Regexps) (request : Request) where
      -- effectiveDestinationRuleTLSModeForRequest
      unfoldable pub effective_destination_rule_tls_mode :
          List (VirtualService F) → Option RuleTlsMode
      unfolding own_mode first_mode istio_virtual_service_hosts_service istio_route_destinations
      effective_destination_rule_tls_mode [] = own_mode
      effective_destination_rule_tls_mode (vs ∷ rest) =
          let later = effective_destination_rule_tls_mode rest in
          let own = first_mode vs.namespace (istio_route_destinations R K request vs) in
          if not (istio_virtual_service_hosts_service vs (some service))
          then later
          else elim own [ some mode ↦ some mode | none ↦ later ]

  unfoldable pub mismatch_verdict : Report → EffectiveMode → Option RuleTlsMode → Report × Bool
  unfolding once sprintf decimal scope_text service_name
  mismatch_verdict report peer none = (report, false)
  mismatch_verdict report peer (some tls) =
      let mode = tls_text tls.mode in
      if is_istio_mutual tls.mode
      then (report, false)
      else once report tls.rule
          (sprintf
            (codes
              "Target workload for Service %q is under STRICT mTLS for workload port %d via PeerAuthentication %s, but DestinationRule %s sets client TLS mode %s%s.")
            (service.name ∷ decimal peer.port ∷ peer.name ∷ tls.rule ∷ mode ∷ scope_text tls ∷ []))
          (sprintf
            (codes
              "Primary issue: target workload is under Istio STRICT mTLS for workload port %d via PeerAuthentication %q, but DestinationRule %q sets client TLS mode %s%s for Service %q. Use ISTIO_MUTUAL or remove the conflicting TLS setting for mesh-internal mTLS.")
            (decimal peer.port
              ∷ peer.name
              ∷ tls.rule
              ∷ mode
              ∷ scope_text tls
              ∷ service_name (some service)
              ∷ []))

  -- An error of the listing of VirtualServices is dropped, with what was listed.
  abbrev pub listed : {A : Type 0} → Answer A → List A
  listed (items found) = found
  listed _ = []

  -- `none` is the panic of newIstioHTTPRequest.
  unfoldable pub inspect_istio_destination_rule_mtls_mismatch :
      {F : Floats}
      → Regexps
      → Configs F
      → Urls
      → ServiceOptions
      → Str
      → HttpResult
      → Report
      → Option (Report × Bool)
  unfolding mismatch_verdict effective_destination_rule_tls_mode new_request list_istio_configs
      istio_config_namespaces istio_service_path_virtual_services
      istio_service_path_destination_rules runtime_looks_like_connection_reset pod_has_istio_sidecar
      effective_peer_authentication_for_pods
  inspect_istio_destination_rule_mtls_mismatch R configs urls opts raw_url result report =
      let peer = mode_for opts.service_port in
      let namespaces = istio_config_namespaces opts (some source) in
      if not peers.connected
        || not (runtime_looks_like_connection_reset result)
        || not (pod_has_istio_sidecar source)
      then some (report, false)
      else if not (is_strict peer.mode)
      then some (report, false)
      else elim (list_istio_configs configs.destination_rules namespaces) [
        | not_found ↦ some (report, false)
        | failed error ↦ some (report, false)
        | items rules ↦ elim (new_request urls opts (some service) (some source) raw_url) [
          | none ↦ none
          | some request ↦ some (
              mismatch_verdict report peer (
                effective_destination_rule_tls_mode report.target.service_port
                  (istio_service_path_destination_rules opts (some source) rules) R request
                  (istio_service_path_virtual_services opts (some source)
                    (listed (list_istio_configs configs.virtual_services namespaces)))))
        ]
      ]
