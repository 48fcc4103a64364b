-- ===== src/Istio/Signal.antt =====
-- What Envoy's answer says (internal/check/istio.go), and the inspection that explains it. A mesh is
-- what the Istio and Kubernetes clients answer, with the Go libraries that the inspections call.
pub mod Laws
pub mod Writing
use kube_net_mods.Prelude.{
  Bool, true, false, not, ◌||◌, ◌&&◌, List, [], ◌∷◌, ◌++◌, Option, none, some, Str, codes, str_eq,
  if◌then◌else◌, any, contains, to_lower, ℤ, quote, sprintf,
}
use kube_net_mods.Model.{Report, Status, warn, fail, add, diagnose}
use kube_net_mods.Cluster.{Pod, Service, Selectors}
use kube_net_mods.Native.Path.{service_name}
use kube_net_mods.Service.Endpoints.{has_istio_diagnosis}
use kube_net_mods.Runtime.Probe.{ExecTarget, HttpResult}
use kube_net_mods.Calico.Value.{Floats}
use kube_net_mods.Istio.Request.{Urls, ServiceOptions}
use kube_net_mods.Istio.Matching.{Regexps}
use kube_net_mods.Istio.Client.{Answer}
use kube_net_mods.Istio.Policies.{AuthorizationPolicy, RequestAuthentication}
use kube_net_mods.Istio.Authz.{
  Mesh, inspect_istio_request_authentication, inspect_istio_authorization_policy,
}
use kube_net_mods.Istio.Config.{VirtualService, DestinationRule}
use kube_net_mods.Istio.Sidecar.{Sidecar, pod_has_istio_sidecar}
use kube_net_mods.Istio.Mtls.{PeerAuthentication}
use kube_net_mods.Istio.Mtls.Checks.{Peers, inspect_istio_destination_rule_mtls_mismatch}
use kube_net_mods.Istio.Traffic.Routing.{Configs, inspect_istio_traffic_routing}

pub record Environment : Type 1 where
  pub floats : Floats
  pub fixed_text : floats.Float → Str
  pub duration_text : ℤ → Str
  pub selectors : Selectors
  pub regexps : Regexps
  pub urls : Urls
  pub connected : Bool
  pub root_namespace : Str
  pub policies : Str → Answer (Option AuthorizationPolicy)
  pub authentications : Str → Answer (Option RequestAuthentication)
  pub peer_authentications : Str → Answer (Option PeerAuthentication)
  pub virtual_services : Str → Answer (Option (VirtualService floats))
  pub destination_rules : Str → Answer (Option DestinationRule)
  pub sidecars : Str → Answer (Option Sidecar)

-- istioRuntimeSignal; the empty signal is `none`.
pub data Signal : Type 0 where
  rbac_denied jwt_denied no_healthy_upstream upstream_reset : Signal

unfoldable pub path_has_istio_sidecar : Option Pod → List Pod → Bool
unfolding pod_has_istio_sidecar
path_has_istio_sidecar none pods = any pod_has_istio_sidecar pods
path_has_istio_sidecar (some source) pods =
    pod_has_istio_sidecar source || any pod_has_istio_sidecar pods

abbrev pub answer_text : HttpResult → Str
answer_text result = to_lower (result.output ++ codes " " ++ result.error)

-- The answer comes from Envoy, or the path has a sidecar.
abbrev pub from_envoy : HttpResult → Option Pod → List Pod → Bool
from_envoy result source pods =
    contains (answer_text result) (codes "server: envoy")
    || contains (answer_text result) (codes "x-envoy-")
    || path_has_istio_sidecar source pods

abbrev pub status_is : HttpResult → Str → Bool
status_is result code = str_eq result.status_code code

abbrev pub says : HttpResult → Str → Bool
says result text = contains (answer_text result) text

unfoldable pub classify_istio_runtime : HttpResult → Option Pod → List Pod → Option Signal
unfolding str_eq contains to_lower path_has_istio_sidecar
classify_istio_runtime result source pods =
    let envoy = from_envoy result source pods in
    if status_is result (codes "401")
      && envoy
      && (says result (codes "jwt") || says result (codes "unauthorized"))
    then some jwt_denied
    else if status_is result (codes "403") && envoy && says result (codes "rbac: access denied")
    then some rbac_denied
    else if status_is result (codes "503") && envoy && says result (codes "no healthy upstream")
    then some no_healthy_upstream
    else if status_is result (codes "503")
        && envoy
        && (says result (codes "upstream connect error")
            || says result (codes "reset before headers")
            || says result (codes "connection termination"))
    then some upstream_reset
    else none

unfoldable pub istio_runtime_message : ExecTarget → Str → HttpResult → Option Signal → Str
unfolding sprintf
istio_runtime_message source raw_url result signal =
    let args = source.kind ∷ source.pod.name ∷ raw_url ∷ [] in
    elim signal [
      | none ↦ sprintf (codes "%s %q reached %s. HTTP status: %s") (args ++ result.status_code ∷ [])
      | some which ↦ elim which [
        | rbac_denied ↦
            sprintf (codes "%s %q reached %s, but Envoy returned HTTP 403 RBAC: access denied.")
              args
        | jwt_denied ↦
            sprintf (codes "%s %q reached %s, but Envoy returned HTTP 401 unauthorized.") args
        | no_healthy_upstream ↦
            sprintf (codes "%s %q reached %s, but Envoy returned HTTP 503: no healthy upstream.")
              args
        | upstream_reset ↦
            sprintf
              (codes
                "%s %q reached %s, but Envoy returned HTTP 503 upstream connect/reset before headers.")
              args
      ]
    ]

module _ (E : Environment) where
  abbrev pub mesh : Mesh
  mesh = record {
    connected = E.connected;
    root_namespace = E.root_namespace;
    policies = E.policies;
    authentications = E.authentications;
  }

  abbrev pub configs : Configs E.floats
  configs = record {
    connected = E.connected;
    virtual_services = E.virtual_services;
    destination_rules = E.destination_rules;
  }

  abbrev pub peers : Peers
  peers = record {
    connected = E.connected;
    root_namespace = E.root_namespace;
    authentications = E.peer_authentications;
  }

  module _ (opts : ServiceOptions) (service : Service) (pods : List Pod) (source : Pod) where
    unfoldable pub reset_report : Report × Bool → Report
    unfolding add diagnose sprintf service_name has_istio_diagnosis
    reset_report (report, explained) =
        if explained || has_istio_diagnosis report
        then report
        else diagnose
            (add report (codes "Istio Upstream Layer") (codes "upstream reset") warn (
              codes
                "Envoy returned 503 upstream connect/reset before headers, but KubeNetMods could not identify a specific Istio TLS or routing object."))
            (sprintf
              (codes
                "Primary issue candidate: Envoy returned upstream connect/reset before headers for Service %q. Check DestinationRule TLS settings, PeerAuthentication mTLS mode, upstream workload readiness, and application listener behavior.")
              (service_name (some service) ∷ []))

    abbrev pub reset_or_panic : Option (Report × Bool) → Option Report
    reset_or_panic none = none
    reset_or_panic (some found) = some (reset_report found)

    -- `none` is the panic of newIstioHTTPRequest.
    unfoldable pub inspect_istio_runtime_signal : Str → HttpResult → Signal → Report → Option Report
    unfolding inspect_istio_authorization_policy inspect_istio_request_authentication
        inspect_istio_traffic_routing inspect_istio_destination_rule_mtls_mismatch reset_report
    inspect_istio_runtime_signal raw_url result signal report = elim signal [
      | rbac_denied ↦
          inspect_istio_authorization_policy E.selectors service pods source mesh E.urls opts
            raw_url report
      | jwt_denied ↦
          some
            (inspect_istio_request_authentication E.selectors mesh report (some service) pods
              fail).0
      | no_healthy_upstream ↦
          inspect_istio_traffic_routing E.selectors service pods E.regexps configs E.urls opts
            source raw_url report
      | upstream_reset ↦ reset_or_panic (
          inspect_istio_destination_rule_mtls_mismatch E.selectors peers service pods source
            E.regexps configs E.urls opts raw_url result report)
    ]
