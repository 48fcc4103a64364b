-- ===== src/Istio/Traffic.antt =====
-- Where a mesh sends a request (internal/check/istio_traffic.go): hosts, route destinations, subsets and
-- the ready pods behind them.
pub mod Routing
pub mod Weighted
pub mod Numbers
pub mod Intentional
pub mod Writing
use kube_net_mods.Prelude.{
  ℕ, zero, suc, ◌+◌, Bool, true, false, not, ◌||◌, ◌&&◌, ◌==◌, List, [], ◌∷◌, ◌++◌, map, Option,
  none, some, Str, codes, str_eq, is_empty, if◌then◌else◌, any, find, keep, count_char, contains,
  has_suffix, trim_suffix, trim_space, to_lower, ℤ, pos, is_pos, sort_strings, quote, decimal,
  digits, join, sprintf, length,
}
use kube_net_mods.Model.{Report}
use kube_net_mods.Cluster.{Labels, lookup, Pod, Service, Selectors}
use kube_net_mods.Native.Names.{unique_strings}
use kube_net_mods.Runtime.Probe.{pod_ready}
use kube_net_mods.Calico.Value.{Floats}
use kube_net_mods.Istio.Request.{Request, istio_service_hosts}
use kube_net_mods.Istio.Matching.{Regexps, istio_http_route_match_text}
use kube_net_mods.Istio.Config.{RouteTarget, HttpRoute, VirtualService, Subset, DestinationRule}

-- istioRouteDestination
pub record RouteDestination : Type 0 where
  pub host : Str
  pub subset : Str
  pub route_name : Str
  pub route_num : ℕ
  pub weight : ℤ
  pub match_text : Str

unfoldable pub route_text : Str → ℕ → Str
unfolding sprintf digits
route_text name num =
    if not (is_empty name)
    then sprintf (codes "HTTP route %d (%q)") (digits num ∷ name ∷ [])
    else if not (num == 0)
    then sprintf (codes "HTTP route %d") (digits num ∷ [])
    else codes "HTTP route"

unfoldable pub weight_text : ℤ → Str
unfolding sprintf decimal
weight_text weight =
    if is_pos weight then sprintf (codes " with weight %d") (decimal weight ∷ []) else []

abbrev pub match_suffix : Str → Str
match_suffix text = if is_empty text then [] else codes " matched by " ++ text

unfoldable pub istio_resolve_host : Str → Str → Str
unfolding trim_suffix to_lower trim_space contains has_suffix
istio_resolve_host given namespace =
    let host = trim_suffix (to_lower (trim_space given)) (codes ".") in
    if is_empty host || contains host (codes "*")
    then host
    else if not (contains host (codes ".")) && not (is_empty namespace)
    then host ++ codes "." ++ to_lower namespace ++ codes ".svc.cluster.local"
    else if count_char b'.' host == 1
    then host ++ codes ".svc.cluster.local"
    else if has_suffix host (codes ".svc")
    then host ++ codes ".cluster.local"
    else host

unfoldable pub istio_host_matches_service : Str → Str → Option Service → Bool
unfolding istio_resolve_host istio_service_hosts str_eq
istio_host_matches_service host namespace none = false
istio_host_matches_service host namespace (some service) =
    any (str_eq (istio_resolve_host host namespace)) (istio_service_hosts (some service))

unfoldable pub find_destination_rule :
    List DestinationRule → Str → Str → Option Service → Option DestinationRule
unfolding istio_resolve_host istio_host_matches_service str_eq
find_destination_rule rules host namespace service =
    find
      (λ rule.
        str_eq (istio_resolve_host rule.host rule.namespace) (istio_resolve_host host namespace)
        || istio_host_matches_service rule.host rule.namespace service)
      rules

abbrev labels_or_none : Option Subset → Option Labels
labels_or_none none = none
labels_or_none (some subset) = some subset.labels

unfoldable pub destination_rule_subset_labels : DestinationRule → Str → Option Labels
unfolding str_eq
destination_rule_subset_labels rule name =
    labels_or_none (find (λ subset. str_eq subset.name name) rule.subsets)

-- The value of a label on a pod, or that it has none.
abbrev label_value : Str → Pod → Str
label_value key pod = elim (lookup key pod.labels) [ none ↦ codes "(missing)" | some value ↦ value ]

-- A sorted list without the texts that stand in it before.
abbrev distinct_next : Str → List Str → List Str
distinct_next s [] = s ∷ []
distinct_next s (t ∷ ts) = if str_eq s t then t ∷ ts else s ∷ t ∷ ts

distinct_sorted : List Str → List Str
unfolding str_eq
distinct_sorted [] = []
distinct_sorted (s ∷ ss) = distinct_next s (distinct_sorted ss)

-- The keys of the subset with the values that ready pods have for them; without ready pods nothing.
unfoldable pub ready_pod_label_values_for_keys : List Pod → Labels → Str
unfolding pod_ready sort_strings join distinct_sorted
ready_pod_label_values_for_keys pods subset =
    let ready = keep pod_ready pods in
    if is_empty ready
    then []
    else join
        (sort_strings (
          map
            (λ entry.
              entry.0
              ++ codes "="
              ++ join (distinct_sorted (sort_strings (map (label_value entry.0) ready)))
                  (codes "|"))
            subset))
        (codes ", ")

module _ (K : Selectors) where
  open K use {set_matches}

  -- A ready pod with the labels of a subset.
  abbrev pub serves : Labels → Pod → Bool
  serves labels pod = pod_ready pod && set_matches labels pod.labels

  unfoldable pub ready_pods_matching_labels : List Pod → Labels → ℕ
  unfolding pod_ready
  ready_pods_matching_labels pods labels = length (keep (serves labels) pods)

unfoldable pub joined : List (List RouteDestination) → List RouteDestination
joined [] = []
joined (group ∷ groups) = group ++ joined groups

module _ {F : Floats} where
  unfoldable pub istio_virtual_service_hosts_service : VirtualService F → Option Service → Bool
  unfolding istio_host_matches_service
  istio_virtual_service_hosts_service vs service =
      any (λ host. istio_host_matches_service host vs.namespace service) vs.hosts

  -- The destinations of one route that name a host.
  targets_of : HttpRoute F → ℕ → Str → List RouteTarget → List RouteDestination
  targets_of route num text [] = []
  targets_of route num text (t ∷ ts) =
      let rest = targets_of route num text ts in
      if is_empty t.host
      then rest
      else record {
        host = t.host;
        subset = t.subset;
        route_name = route.name;
        route_num = num;
        weight = t.weight;
        match_text = text;
      }
        ∷ rest

  module _ (R : Regexps) (K : Selectors) (request : Request) where
    groups_from : ℕ → List (HttpRoute F) → List (List RouteDestination)
    unfolding targets_of istio_http_route_match_text
    groups_from num [] = []
    groups_from num (route ∷ routes) =
        let rest = groups_from (num + 1) routes in
        elim (istio_http_route_match_text R K route.matches request) [
          | none ↦ rest
          | some text ↦
              let group = targets_of route num text route.route in
              if is_empty group then rest else group ∷ rest
        ]

    unfoldable pub istio_route_destination_groups : VirtualService F → List (List RouteDestination)
    unfolding groups_from
    istio_route_destination_groups vs = groups_from 1 vs.http

    unfoldable pub istio_route_destinations : VirtualService F → List RouteDestination
    unfolding istio_route_destination_groups joined
    istio_route_destinations vs = joined (istio_route_destination_groups vs)
