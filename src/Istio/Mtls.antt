-- ===== src/Istio/Mtls.antt =====
-- The mTLS mode that a workload asks for and the TLS mode that a client sets (internal/check/
-- istio_mtls.go). Listing calls are arguments.
pub mod Checks
pub mod Choice
use kube_net_mods.Prelude.{
  Bool, true, false, not, ◌||◌, ◌&&◌, ◌==◌, List, [], ◌∷◌, ◌++◌, map, Option, none, some, Str,
  codes, str_eq, is_empty, if◌then◌else◌, any, find, keep, has_prefix, trim_prefix, trim_space, ℤ,
  pos, int_eq, is_pos,
}
use mathlib.Core.List.{reverse}
use kube_net_mods.Cluster.{Labels, Pod, Service, ServicePort, Selectors, int_value, string_value}
use kube_net_mods.Native.Names.{unique_strings}
use kube_net_mods.Runtime.Resolv.{split_lines}
use kube_net_mods.Service.Selection.{Selection, selected, missing, panic, select_service_port}
use kube_net_mods.Istio.Request.{uint32_port_from_int32}
use kube_net_mods.Istio.Client.{Answer, items, not_found, failed}
use kube_net_mods.Istio.Policies.{istio_workload_selector_matches_any}
use kube_net_mods.Istio.Config.{TlsMode, PortSetting, TrafficPolicy, Subset, DestinationRule}

-- PeerAuthentication_MutualTLS_Mode
pub data MtlsMode : Type 0 where
  unset disabled permissive strict : MtlsMode

abbrev pub is_unset : MtlsMode → Bool
is_unset unset = true
is_unset _ = false

abbrev pub is_strict : MtlsMode → Bool
is_strict strict = true
is_strict _ = false

-- securityv1.PeerAuthentication; a port's nil settings are `none`.
pub record PeerAuthentication : Type 0 where
  pub name : Str
  pub namespace : Str
  pub selector : Labels
  pub mode : MtlsMode
  pub port_level : List (ℤ × Option MtlsMode)

-- effectivePeerAuthentication
pub record EffectiveMode : Type 0 where
  pub name : Str
  pub mode : MtlsMode
  pub port : ℤ

trim_quotes : Str → Str
trim_quotes [] = []
trim_quotes (c ∷ s) = let rest = trim_quotes s in if c == b'"' || c == 39 then rest else c ∷ s

-- strings.Trim(s, "\"'")
trim_quotes_both : Str → Str
unfolding trim_quotes
trim_quotes_both s = reverse (trim_quotes (reverse (trim_quotes s)))

root_in_lines : List Str → Str
unfolding trim_space has_prefix trim_prefix trim_quotes_both
root_in_lines [] = codes "istio-system"
root_in_lines (raw ∷ lines) =
    let line = trim_space raw in
    let later = root_in_lines lines in
    let root = trim_quotes_both (trim_space (trim_prefix line (codes "rootNamespace:"))) in
    if not (has_prefix line (codes "rootNamespace:")) || is_empty root then later else root

-- istioRootNamespace, from the text of the key "mesh"; `none` is a config map that could not be read.
unfoldable pub istio_root_namespace : Option Str → Str
unfolding root_in_lines split_lines
istio_root_namespace none = codes "istio-system"
istio_root_namespace (some mesh) = root_in_lines (split_lines mesh)

unfoldable pub peer_authentication_workload_port : Option Service → ℤ → ℤ
unfolding uint32_port_from_int32 select_service_port
peer_authentication_workload_port none requested = pos 0
peer_authentication_workload_port (some service) requested =
    if is_empty service.ports then pos 0 else elim (select_service_port service requested) [
      | missing ↦ pos 0
      | panic ↦ pos 0
      | selected chosen ↦
          let own = if is_pos chosen.port then uint32_port_from_int32 chosen.port else pos 0 in
          elim chosen.target_port [
            | int_value number ↦ if is_pos number then uint32_port_from_int32 number else own
            | string_value name ↦ own
          ]
    ]

-- The settings of a port that are there and not nil.
port_mode : ℤ → List (ℤ × Option MtlsMode) → Option MtlsMode
port_mode port [] = none
port_mode port ((number, mode) ∷ rest) =
    let later = port_mode port rest in if int_eq number port then mode else later

abbrev pub has_selector : PeerAuthentication → Bool
has_selector item = not (is_empty item.selector)

abbrev or_mode : MtlsMode → Option MtlsMode → MtlsMode
or_mode mode none = mode
or_mode mode (some port) = if is_unset port then mode else port

unfoldable pub peer_authentication_effective_mode : PeerAuthentication → ℤ → EffectiveMode
unfolding port_mode
peer_authentication_effective_mode item port = record {
  name = item.namespace ++ codes "/" ++ item.name;
  mode = if is_pos port then or_mode item.mode (port_mode port item.port_level) else item.mode;
  port = port;
}

abbrev pub present : List (Option PeerAuthentication) → List PeerAuthentication
present [] = []
present (none ∷ rest) = present rest
present (some item ∷ rest) = item ∷ present rest

abbrev pub effective_or_none : ℤ → Option PeerAuthentication → Option EffectiveMode
effective_or_none port none = none
effective_or_none port (some item) = some (peer_authentication_effective_mode item port)

module _ (ask : Str → Answer (Option PeerAuthentication)) (port : ℤ) where
  unfoldable pub mesh_peer_authentication : Str → Option EffectiveMode
  unfolding peer_authentication_effective_mode
  mesh_peer_authentication root = elim (ask root) [
    | not_found ↦ none
    | failed error ↦ none
    | items listed ↦
        effective_or_none port (find (λ item. not (has_selector item)) (present listed))
  ]

  module _ (K : Selectors) where
    -- The loop, with the first object without a selector.
    unfoldable pub selected_from :
        List Pod → Option PeerAuthentication → List PeerAuthentication → Option PeerAuthentication
    unfolding istio_workload_selector_matches_any
    selected_from pods default [] = default
    selected_from pods default (item ∷ rest) =
        let later = selected_from pods default rest in
        let as_default = selected_from pods (some item) rest in
        if has_selector item
        then if istio_workload_selector_matches_any K item.selector pods then some item else later
        else elim default [ none ↦ as_default | some earlier ↦ later ]

    unfoldable pub selected_peer_authentication : Str → List Pod → Option EffectiveMode
    unfolding selected_from peer_authentication_effective_mode
    selected_peer_authentication namespace pods = elim (ask namespace) [
      | not_found ↦ none
      | failed error ↦ none
      | items listed ↦ effective_or_none port (selected_from pods none (present listed))
    ]

    -- The namespaces of the pods in turn: what is set for the namespace, and then for the mesh.
    unfoldable pub effective_in : Str → List Pod → List Str → EffectiveMode
    unfolding selected_peer_authentication mesh_peer_authentication str_eq
    effective_in root pods [] = record { name = []; mode = unset; port = port }
    effective_in root pods (namespace ∷ namespaces) =
        let later = effective_in root pods namespaces in
        let own =
          selected_peer_authentication namespace
            (keep (λ pod. str_eq pod.namespace namespace) pods) in
        let from_mesh : EffectiveMode =
          if is_empty root || str_eq root namespace
          then later
          else elim (mesh_peer_authentication root) [ none ↦ later | some found ↦ found ] in
        elim own [
          | none ↦ from_mesh
          | some found ↦ if is_unset found.mode then from_mesh else found
        ]

unfoldable pub effective_peer_authentication_for_pods :
    (Str → Answer (Option PeerAuthentication))
    → Selectors
    → Str
    → Option Service
    → ℤ
    → List Pod
    → EffectiveMode
unfolding effective_in peer_authentication_workload_port unique_strings
effective_peer_authentication_for_pods ask K root service requested pods =
    effective_in ask (peer_authentication_workload_port service requested) K root pods
      (unique_strings (map (λ pod. pod.namespace) pods))

abbrev pub tls_of_setting : Option PortSetting → Option TlsMode
tls_of_setting none = none
tls_of_setting (some setting) = setting.tls

abbrev has_tls : Option TlsMode → Bool
has_tls none = false
has_tls (some mode) = true

abbrev or_tls : Option TlsMode → Option TlsMode → Option TlsMode
or_tls (some mode) rest = some mode
or_tls none rest = rest

-- `none` is the result false.
unfoldable pub traffic_policy_tls_mode : Option TrafficPolicy → ℤ → Option TlsMode
unfolding uint32_port_from_int32
traffic_policy_tls_mode none service_port = none
traffic_policy_tls_mode (some policy) service_port =
    let port = uint32_port_from_int32 service_port in
    if int_eq port (pos 0)
    then none
    else or_tls
        (tls_of_setting (find (λ s. int_eq s.number port && has_tls s.tls) policy.port_level))
        policy.tls

abbrev subset_policy : Option Subset → Option TrafficPolicy
subset_policy none = none
subset_policy (some subset) = subset.policy

unfoldable pub destination_rule_tls_mode_for_subset : DestinationRule → Str → ℤ → Option TlsMode
unfolding traffic_policy_tls_mode str_eq
destination_rule_tls_mode_for_subset rule subset service_port =
    let own = traffic_policy_tls_mode rule.policy service_port in
    if is_empty subset
    then own
    else or_tls
        (traffic_policy_tls_mode (subset_policy (find (λ s. str_eq s.name subset) rule.subsets))
          service_port)
        own
