-- ===== src/Istio/Client.antt =====
-- Listing the Istio objects of several namespaces (internal/check/istio_client.go). A cluster's
-- answers are a function from namespaces; the namespaces to ask are computed as the source does.
pub mod Laws
use kube_net_mods.Prelude.{
  ℕ, Bool, true, false, ◌||◌, ◌&&◌, not, List, [], ◌∷◌, ◌++◌, Option, none, some, Str, codes,
  str_eq, is_empty, if◌then◌else◌, any, concat, to_lower, trim_space, equal_fold,
}
use kube_net_mods.Model.{Report, Status, warn, add}
use kube_net_mods.Cluster.{Pod}
use kube_net_mods.Native.Names.{unique_strings}
use kube_net_mods.Istio.Request.{ServiceOptions}
use kube_net_mods.Calico.Value.{Floats}
use kube_net_mods.Istio.Config.{VirtualService, DestinationRule}

-- What a List call returns: the items, or an error, which apierrors.IsNotFound may recognise.
pub data Answer (A : Type 0) : Type 0 where
  items : List A → Answer A
  not_found : Answer A
  failed : Str → Answer A

pub record Listing (A : Type 0) : Type 0 where
  pub found : List A
  pub error : Option Str

unfoldable pub istio_target_policy_namespaces : Str → Str → List Str
unfolding unique_strings
istio_target_policy_namespaces root namespace =
    unique_strings (if is_empty root then namespace ∷ [] else namespace ∷ root ∷ [])

abbrev pub first_error : Option Str → Str → Option Str
first_error none error = some error
first_error (some earlier) error = some earlier

module _ {A : Type 0} (ask : Str → Answer A) where
  -- The rounds after the first, with `out` and `listErr`.
  unfoldable pub list_rest : List Str → List A → Option Str → Listing A
  list_rest [] out error = record { found = out; error = error }
  list_rest (namespace ∷ namespaces) out error = elim (ask namespace) [
    | items found ↦ list_rest namespaces (out ++ found) error
    | not_found ↦ list_rest namespaces out error
    | failed message ↦ list_rest namespaces out (first_error error message)
  ]

  -- listIstioAuthorizationPolicies and listIstioRequestAuthentications: an error in the first
  -- namespace ends the listing, a later one is kept beside what the others give.
  unfoldable pub list_istio_policies : List Str → Listing A
  unfolding list_rest
  list_istio_policies [] = record { found = []; error = none }
  list_istio_policies (namespace ∷ namespaces) = elim (ask namespace) [
    | items found ↦ list_rest namespaces found none
    | not_found ↦ list_rest namespaces [] none
    | failed message ↦ record { found = []; error = some message }
  ]

-- addIstioListWarning, for an error that is not a not-found error
unfoldable pub add_istio_list_warning : Report → Str → Str → Str → Report
unfolding add concat
add_istio_list_warning report layer check error =
    add report layer check warn
      (concat (codes "Could not inspect Istio " ∷ check ∷ codes ": " ∷ error ∷ []))

-- listIstioVirtualServices and listIstioDestinationRules: the items of all namespaces, or the first
-- error.
module _ {A : Type 0} (ask : Str → Answer A) where
  list_all_from : List Str → List A → Answer A
  list_all_from [] out = items out
  list_all_from (namespace ∷ namespaces) out = elim (ask namespace) [
    | items found ↦ list_all_from namespaces (out ++ found)
    | not_found ↦ not_found
    | failed message ↦ failed message
  ]

  unfoldable pub list_istio_configs : List Str → Answer A
  unfolding list_all_from
  list_istio_configs namespaces = list_all_from namespaces []

namespace_of : Option Pod → List Str
namespace_of none = []
namespace_of (some pod) = pod.namespace ∷ []

unfoldable pub istio_config_namespaces : ServiceOptions → Option Pod → List Str
unfolding unique_strings namespace_of
istio_config_namespaces opts source =
    let asked = if is_empty opts.source_namespace then [] else opts.source_namespace ∷ [] in
    unique_strings (opts.namespace ∷ (asked ++ namespace_of source))

unfoldable pub istio_service_path_consumer_namespace : ServiceOptions → Option Pod → Str
istio_service_path_consumer_namespace opts none =
    if is_empty opts.source_namespace then opts.namespace else opts.source_namespace
istio_service_path_consumer_namespace opts (some pod) =
    if not (is_empty pod.namespace)
    then pod.namespace
    else if is_empty opts.source_namespace
    then opts.namespace
    else opts.source_namespace

unfoldable pub istio_virtual_service_applies_to_mesh : {F : Floats} → VirtualService F → Bool
unfolding equal_fold trim_space
istio_virtual_service_applies_to_mesh item =
    is_empty item.gateways
    || any (λ gateway. equal_fold (trim_space gateway) (codes "mesh")) item.gateways

-- One entry of exportTo, all three texts trimmed and lowered.
abbrev pub export_admits : Str → Str → Str → Bool
export_admits value config consumer =
    if str_eq value (codes "*")
    then true
    else if str_eq value (codes ".")
    then str_eq consumer config
    else str_eq value consumer

abbrev pub normal : Str → Str
normal s = to_lower (trim_space s)

unfoldable pub istio_export_to_visible : List Str → Str → Str → Bool
unfolding str_eq to_lower trim_space
istio_export_to_visible export_to config consumer =
    if is_empty consumer || is_empty export_to
    then true
    else any (λ raw. export_admits (normal raw) (normal config) (normal consumer)) export_to

module _ (opts : ServiceOptions) (source : Option Pod) where
  -- What istioServicePathVirtualServices does not skip.
  abbrev pub service_path_sees : {F : Floats} → VirtualService F → Bool
  service_path_sees item =
      istio_virtual_service_applies_to_mesh item
      && istio_export_to_visible item.export_to item.namespace
          (istio_service_path_consumer_namespace opts source)

  unfoldable pub istio_service_path_virtual_services :
      {F : Floats} → List (Option (VirtualService F)) → List (VirtualService F)
  unfolding istio_virtual_service_applies_to_mesh istio_export_to_visible
      istio_service_path_consumer_namespace
  istio_service_path_virtual_services [] = []
  istio_service_path_virtual_services (none ∷ configs) = istio_service_path_virtual_services configs
  istio_service_path_virtual_services (some item ∷ configs) =
      let rest = istio_service_path_virtual_services configs in
      if service_path_sees item then item ∷ rest else rest

  unfoldable pub istio_service_path_destination_rules :
      List (Option DestinationRule) → List DestinationRule
  unfolding istio_export_to_visible istio_service_path_consumer_namespace
  istio_service_path_destination_rules [] = []
  istio_service_path_destination_rules (none ∷ configs) =
      istio_service_path_destination_rules configs
  istio_service_path_destination_rules (some item ∷ configs) =
      let rest = istio_service_path_destination_rules configs in
      if istio_export_to_visible item.export_to item.namespace
        (istio_service_path_consumer_namespace opts source)
      then item ∷ rest
      else rest
