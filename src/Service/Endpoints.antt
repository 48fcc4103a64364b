-- ===== src/Service/Endpoints.antt =====
-- checkEndpoints (internal/check/service_target.go) and the questions to a report of
-- internal/check/service_diagnosis.go. What List answers is a parameter.
pub mod Missing
pub mod Counts
use kube_net_mods.Prelude.{
  ℕ, ◌+◌, Bool, true, false, ◌||◌, ◌&&◌, not, ◌≡◌, ◌≢◌, refl, sym, ap, ◌∙◌, ◌↔◌, ◌⊎◌, inl, inr,
  List, [], ◌∷◌, ◌++◌, map, Option, none, some, Str, codes, str_eq, str_eq_iff, is_empty,
  if◌then◌else◌, any, any_iff, Exists, arith, Bool-cases, List-cases, Memᴰ, mem_here, mem_there,
  mem_inv, mem-append_left, mem-append_right, mem-append_inv, and_iff, not_iff, subst, quote,
  concat, join, sort_strings, mem-sort, sort-mem, contains,
}
use kube_net_mods.Model.{
  Report, Diagnosis, Status, pass, fail, warn, info, skip, status_eq, add, diagnose,
  count_by_status,
}
use kube_net_mods.Cluster.{Pod, Service, Selectors}
use kube_net_mods.Runtime.Probe.{pod_ready}

unfoldable pub has_diagnosis_containing : Report → Str → Bool
unfolding contains
has_diagnosis_containing report fragment = any (λ d. contains d.message fragment) report.diagnoses

unfoldable pub has_istio_diagnosis : Report → Bool
unfolding contains
has_istio_diagnosis report =
    any
      (λ d.
        contains d.message (codes "Istio")
        || contains d.message (codes "DestinationRule")
        || contains d.message (codes "VirtualService")
        || contains d.message (codes "Envoy"))
      report.diagnoses

-- discoveryv1.Endpoint; a nil condition is `none`, and counts as ready.
pub record Endpoint : Type 0 where
  pub addresses : List Str
  pub ready : Option Bool

abbrev pub not_unready : Option Bool → Bool
not_unready none = true
not_unready (some ready) = ready

unfoldable pub addresses_of : List Endpoint → List Str
addresses_of [] = []
addresses_of (e ∷ es) =
    let rest = addresses_of es in if not_unready e.ready then e.addresses ++ rest else rest

unfoldable pub ready_addresses : List (List Endpoint) → List Str
unfolding addresses_of
ready_addresses [] = []
ready_addresses (slice ∷ slices) = addresses_of slice ++ ready_addresses slices

abbrev pub in_list : List Str → Str → Bool
in_list values needle = any (λ value. str_eq value needle) values

-- A set of strings, in the order of insertion; the caller sorts what it takes from it.
unfoldable pub ready_pod_ips : List Pod → List Str
unfolding str_eq pod_ready
ready_pod_ips [] = []
ready_pod_ips (pod ∷ pods) =
    let rest = ready_pod_ips pods in
    if not (is_empty pod.pod_ip) && pod_ready pod && not (in_list rest pod.pod_ip)
    then pod.pod_ip ∷ rest
    else rest

unfoldable pub not_listed : List Str → List Str → List Str
unfolding str_eq
not_listed ready [] = []
not_listed ready (ip ∷ ips) =
    let rest = not_listed ready ips in if in_list ready ip then rest else ip ∷ rest

unfoldable pub missing_ips : List Str → List Pod → List Str
unfolding not_listed ready_pod_ips sort_strings
missing_ips ready pods = sort_strings (not_listed ready (ready_pod_ips pods))

abbrev layer : Str
layer = codes "Endpoint Mapping Layer"

-- What EndpointSlices(…).List answers
pub data Slices : Type 0 where
  slices : List (List Endpoint) → Slices
  unreadable : Str → Slices

unfoldable pub match_report : Report → Str → List Str → Report
unfolding add diagnose concat quote join
match_report report service_name [] =
    add report layer (codes "pod to endpoint match") pass
      (codes "Selected ready pod IPs appear in ready EndpointSlices.")
match_report report service_name (m ∷ ms) =
    let text = join (m ∷ ms) (codes ", ") in
    diagnose
      (add report layer (codes "pod to endpoint match") warn
        (concat (codes "Ready pod IPs missing from EndpointSlices: " ∷ text ∷ [])))
      (concat (
        codes "Primary issue candidate: Service "
        ∷ quote service_name
        ∷ codes " has ready pod IPs missing from EndpointSlices: "
        ∷ text
        ∷ codes "."
        ∷ []))

module _ (K : Selectors) where
  open K use {set_string}

  unfoldable pub no_address : Report → Str → Service → Report
  unfolding add diagnose concat quote has_diagnosis_containing
  no_address report name service =
      let failed = add report layer (codes "endpoint slices") fail (
        concat (
          codes "No ready EndpointSlice addresses found for Service "
          ∷ quote name
          ∷ codes "."
          ∷ [])) in
      if is_empty service.selector
      then diagnose failed (
          concat (
            codes "Primary issue: selectorless Service "
            ∷ quote name
            ∷ codes
                " has no ready EndpointSlice addresses. Manually managed EndpointSlices or external endpoints are missing/unready."
            ∷ []))
      else if not (has_diagnosis_containing failed (codes "no target pods matched selector"))
      then diagnose failed (
          concat (
            codes "Primary issue: Service "
            ∷ quote name
            ∷ codes " has no ready EndpointSlice addresses for selector "
            ∷ quote (set_string service.selector)
            ∷ codes
                ". This usually means selector mismatch, pod readiness failure, or missing manually managed endpoints."
            ∷ []))
      else failed

  -- The verdict on the sorted ready addresses.
  unfoldable pub address_report : Report → Str → Service → List Pod → List Str → Report
  unfolding no_address match_report missing_ips add concat join
  address_report report name service pods [] = no_address report name service
  address_report report name service pods (ip ∷ ips) =
      let found =
        add report layer (codes "endpoint slices") pass
          (concat (codes "Ready endpoint IPs: " ∷ join (ip ∷ ips) (codes ", ") ∷ [])) in
      if is_empty pods then found else match_report found name (missing_ips (ip ∷ ips) pods)

  unfoldable pub check_endpoints : Report → Str → Option Service → List Pod → Slices → Report
  unfolding add address_report ready_addresses sort_strings concat str_eq
  check_endpoints report name none pods answer =
      add report layer (codes "endpoint slices") skip
        (codes "Skipped because the target Service was not readable.")
  check_endpoints report name (some service) pods answer =
      if str_eq service.kind (codes "ExternalName")
      then add report layer (codes "endpoint slices") skip (
          codes
            "Skipped because ExternalName Services do not use Kubernetes EndpointSlices for backend pods.")
      else elim answer [
        | unreadable error ↦
            add report layer (codes "endpoint slices") fail
              (concat (codes "Could not read EndpointSlices: " ∷ error ∷ []))
        | slices found ↦
            address_report report name service pods (sort_strings (ready_addresses found))
      ]
