-- ===== src/Istio/Sidecar.antt =====
-- The scope that a Sidecar gives its workload (internal/check/istio_sidecar.go, and podHasIstioSidecar of
-- internal/check/istio.go).
pub mod Effective
use kube_net_mods.Prelude.{
  ℕ, Bool, true, false, not, ◌||◌, ◌&&◌, ◌==◌, List, [], ◌∷◌, ◌++◌, Option, none, some, Str, codes,
  str_eq, is_empty, is_some, if◌then◌else◌, any, has_prefix, has_suffix, trim_prefix, trim_suffix,
  trim_space, to_lower, sort_strings, quote, join, concat,
}
use kube_net_mods.Model.{Report, warn, add, diagnose}
use kube_net_mods.Cluster.{Labels, lookup, Pod, Service, Selectors}
use kube_net_mods.Native.Names.{unique_strings}
use kube_net_mods.Native.Path.{service_name}
use kube_net_mods.Istio.Request.{istio_service_hosts}
use kube_net_mods.Istio.Client.{Answer, items, not_found, failed}

-- networkingv1.Sidecar: a missing selector is an empty one, and an egress listener is its hosts.
pub record Sidecar : Type 0 where
  pub name : Str
  pub namespace : Str
  pub selector : Labels
  pub egress : List (List Str)

unfoldable pub pod_has_istio_sidecar : Pod → Bool
unfolding str_eq
pod_has_istio_sidecar pod =
    is_some (lookup (codes "sidecar.istio.io/status") pod.annotations)
    || any (λ c. str_eq c.name (codes "istio-proxy")) pod.containers

-- formatList
unfoldable pub format_list : List Str → Str
unfolding join
format_list [] = codes "(none)"
format_list (v ∷ vs) = join (v ∷ vs) (codes ", ")

-- strings.SplitN(s, "/", 2), when it has two parts
unfoldable pub split_slash : Str → Option (Str × Str)
split_slash [] = none
split_slash (c ∷ s) =
    let later = split_slash s in
    if c == b'/'
    then some ([], s)
    else elim later [ none ↦ none | some (before, after) ↦ some (c ∷ before, after) ]

unfoldable pub sidecar_dns_host_matches : Str → Str → Bool
unfolding str_eq has_prefix has_suffix trim_prefix trim_suffix to_lower
sidecar_dns_host_matches given value =
    let pattern = to_lower (trim_suffix given (codes ".")) in
    let name = to_lower (trim_suffix value (codes ".")) in
    if str_eq pattern name
    then true
    else if has_prefix pattern (codes "*.")
    then has_suffix name (trim_prefix pattern (codes "*"))
    else false

-- A host whose namespace part is `scope` and whose name is `dns`, both lowered.
scope_matches : Str → Str → Str → Service → Bool
unfolding str_eq to_lower sidecar_dns_host_matches istio_service_hosts
scope_matches scope dns sidecar_namespace service =
    let resolved = if str_eq scope (codes ".") then to_lower sidecar_namespace else scope in
    if str_eq scope (codes "*") && str_eq dns (codes "*")
    then true
    else if str_eq scope (codes "~")
    then false
    else if not (str_eq resolved (codes "*")) && not (str_eq resolved (to_lower service.namespace))
    then false
    else if str_eq dns (codes "*")
    then true
    else any (sidecar_dns_host_matches dns) (istio_service_hosts (some service))

unfoldable pub istio_sidecar_host_matches_service : Str → Str → Option Service → Bool
unfolding split_slash scope_matches trim_space trim_suffix to_lower
istio_sidecar_host_matches_service host sidecar_namespace none = false
istio_sidecar_host_matches_service host sidecar_namespace (some service) =
    elim (split_slash (trim_space host)) [
      | none ↦ false
      | some (scope, dns) ↦
          scope_matches (to_lower scope) (to_lower (trim_suffix dns (codes "."))) sidecar_namespace
            service
    ]

unfoldable pub istio_sidecar_egress_hosts : Sidecar → List Str
unfolding unique_strings sort_strings concat
istio_sidecar_egress_hosts sidecar = unique_strings (sort_strings (all_hosts sidecar.egress))
  where
    all_hosts : List (List Str) → List Str
    all_hosts [] = []
    all_hosts (hosts ∷ listeners) = hosts ++ all_hosts listeners

unfoldable pub istio_sidecar_egress_allows_service : Sidecar → Option Service → Bool
unfolding istio_sidecar_host_matches_service istio_sidecar_egress_hosts
istio_sidecar_egress_allows_service sidecar service =
    any (λ host. istio_sidecar_host_matches_service host sidecar.namespace service)
      (istio_sidecar_egress_hosts sidecar)

abbrev pub or_first : Option Sidecar → Sidecar → Option Sidecar
or_first none sidecar = some sidecar
or_first (some earlier) sidecar = some earlier

module _ (K : Selectors) where
  open K use {set_matches}

  -- The loop over the listed sidecars, with the first one without a selector.
  unfoldable pub effective_of : Labels → Option Sidecar → List (Option Sidecar) → Option Sidecar
  effective_of labels default [] = default
  effective_of labels default (none ∷ rest) = effective_of labels default rest
  effective_of labels default (some sidecar ∷ rest) =
      let as_default = effective_of labels (or_first default sidecar) rest in
      let later = effective_of labels default rest in
      if is_empty sidecar.selector
      then as_default
      else if set_matches sidecar.selector labels
      then some sidecar
      else later

  unfoldable pub effective_istio_sidecar_for_source :
      (Str → Answer (Option Sidecar)) → Pod → Option Sidecar
  unfolding effective_of
  effective_istio_sidecar_for_source ask pod = elim (ask pod.namespace) [
    | items listed ↦ effective_of pod.labels none listed
    | not_found ↦ none
    | failed message ↦ none
  ]

  unfoldable pub scope_report : Report → Service → Pod → Sidecar → Report
  unfolding add diagnose concat quote service_name format_list istio_sidecar_egress_hosts
  scope_report report service pod sidecar =
      let name = sidecar.namespace ++ codes "/" ++ sidecar.name in
      let target = quote (service_name (some service)) in
      diagnose
        (add report (codes "Istio Sidecar Scope Layer") name warn (
          concat (
            codes "Source pod "
            ∷ quote pod.name
            ∷ codes " is selected by Sidecar "
            ∷ name
            ∷ codes ", but its egress hosts do not include Service "
            ∷ target
            ∷ codes ". Configured hosts: "
            ∷ format_list (istio_sidecar_egress_hosts sidecar)
            ∷ codes "."
            ∷ [])))
        (concat (
          codes "Primary issue candidate: source pod "
          ∷ quote (pod.namespace ++ codes "/" ++ pod.name)
          ∷ codes " is selected by Istio Sidecar "
          ∷ quote name
          ∷ codes ", but the Sidecar egress hosts do not include Service "
          ∷ target
          ∷ codes
              ". Istio Sidecar scoping trims outbound config; unmatched traffic may fail or bypass normal service routing depending on mesh outbound policy."
          ∷ []))

  -- The client is none when the cluster has no Istio.
  unfoldable pub inspect_istio_sidecar_egress_scope :
      Option (Str → Answer (Option Sidecar)) → Report → Option Service → Option Pod → Report × Bool
  unfolding scope_report effective_istio_sidecar_for_source istio_sidecar_egress_allows_service
      pod_has_istio_sidecar
  inspect_istio_sidecar_egress_scope (some ask) report (some service) (some pod) =
      if not (pod_has_istio_sidecar pod)
      then (report, false)
      else elim (effective_istio_sidecar_for_source ask pod) [
        | none ↦ (report, false)
        | some sidecar ↦
            if is_empty sidecar.egress || istio_sidecar_egress_allows_service sidecar (some service)
            then (report, false)
            else (scope_report report service pod sidecar, true)
      ]
  inspect_istio_sidecar_egress_scope _ report _ _ = (report, false)
