-- ===== src/Calico/Entity.antt =====
-- What a rule's source or destination asks of a pod (internal/policy/calico/analyze.go,
-- calicoEntityMatchesPod and what it calls). Selectors of Calico are a parameter.
use kube_net_mods.Prelude.{
  Bool, true, false, not, ◌||◌, ◌&&◌, List, [], ◌∷◌, ◌++◌, Option, none, some, Str, codes, str_eq,
  is_empty, if◌then◌else◌, any, is_some, trim_space,
}
use kube_net_mods.Cluster.{Labels, lookup, Pod, Namespace, Service, Netip}
use kube_net_mods.Istio.Request.{set_entry}
use kube_net_mods.Calico.Value.{
  Floats, Value, array, object, Fields, Item, get, to_list, string_from_map, string_slice_field,
  nested_list, text,
}

-- calicoselector.Parse and Evaluate; `none` is a selector that does not parse.
abbrev pub CalicoSelectors : Type 0
CalicoSelectors = Str → Option (Labels → Bool)

abbrev pub selector_matches : CalicoSelectors → Str → Labels → Bool
selector_matches parse raw labels = elim (parse raw) [
  | none ↦ false
  | some matches ↦ matches labels
]

unfoldable pub calico_namespace_labels : Namespace → Labels
unfolding set_entry
calico_namespace_labels namespace =
    set_entry (codes "kubernetes.io/metadata.name") namespace.name
      (set_entry (codes "projectcalico.org/name") namespace.name namespace.labels)

unfoldable pub calico_pod_labels : Pod → Labels
unfolding set_entry
calico_pod_labels pod = set_entry (codes "projectcalico.org/namespace") pod.namespace pod.labels

unfoldable pub service_account_key : Str → Str → Str
service_account_key namespace name =
    namespace ++ codes "/" ++ (if is_empty name then codes "default" else name)

module _ (N : Netip) where
  open N use {Addr, parse_prefix, parse_addr, contains}

  cidr_has : Addr → Str → Bool
  cidr_has ip cidr = elim (parse_prefix cidr) [ none ↦ false | some prefix ↦ contains prefix ip ]

  unfoldable pub ip_in_any_cidr : Str → List Str → Bool
  unfolding cidr_has str_eq
  ip_in_any_cidr address cidrs =
      if is_empty address || str_eq address (codes "None")
      then false
      else elim (parse_addr address) [ none ↦ false | some ip ↦ any (cidr_has ip) cidrs ]

  -- The address of the pod, or the cluster IP of the Service if there is one.
  abbrev pub path_in : Pod → Option Service → List Str → Bool
  path_in pod none nets = ip_in_any_cidr pod.pod_ip nets
  path_in pod (some service) nets =
      ip_in_any_cidr pod.pod_ip nets || ip_in_any_cidr service.cluster_ip nets

module _ (F : Floats) (N : Netip) (print : Value F → Str) (parse : CalicoSelectors) where
  unfoldable pub calico_service_entry_matches : Fields F → Service → Bool
  unfolding string_from_map str_eq
  calico_service_entry_matches item service =
      let name = string_from_map F print item (codes "name") in
      let given = string_from_map F print item (codes "namespace") in
      str_eq name service.name
      && str_eq (if is_empty given then service.namespace else given) service.namespace

  entry_is : Service → Value F → Bool
  unfolding calico_service_entry_matches
  entry_is service (object item) = calico_service_entry_matches item service
  entry_is service _ = false

  services_is : Option (Value F) → Service → Bool
  unfolding calico_service_entry_matches entry_is
  services_is none service = true
  services_is (some (object item)) service = calico_service_entry_matches item service
  services_is (some (array vs)) service =
      is_empty (to_list F vs) || any (entry_is service) (to_list F vs)
  services_is (some _) service = false

  unfoldable pub calico_services_match : Fields F → Option Service → Bool
  unfolding services_is
  calico_services_match entity none = not (is_some (get F entity (codes "services")))
  calico_services_match entity (some service) =
      services_is (get F entity (codes "services")) service

  abbrev list_or_none : Option (List Str) → List Str
  list_or_none none = []
  list_or_none (some l) = l

  abbrev nothing_or : Option Labels → Labels
  nothing_or none = []
  nothing_or (some l) = l

  account_is : Option (Value F) → Pod → List (Str × Labels) → Bool
  unfolding string_slice_field string_from_map service_account_key str_eq
  account_is (some (object accounts)) pod service_accounts =
      let names = list_or_none (string_slice_field F print accounts (codes "names")) in
      let account = if is_empty pod.service_account then codes "default" else pod.service_account in
      let selector = string_from_map F print accounts (codes "selector") in
      let labels =
        nothing_or
          (lookup (service_account_key pod.namespace pod.service_account) service_accounts) in
      if not (is_empty names) && not (any (λ name. str_eq name account) names)
      then false
      else if is_empty selector
      then true
      else not (is_empty labels) && selector_matches parse selector labels
  account_is _ pod service_accounts = true

  unfoldable pub calico_service_account_matches : Fields F → Pod → List (Str × Labels) → Bool
  unfolding account_is
  calico_service_account_matches entity pod service_accounts =
      account_is (get F entity (codes "serviceAccounts")) pod service_accounts

  unfoldable pub calico_unstructured_labels : Item F → Labels
  unfolding set_entry
  calico_unstructured_labels item =
      let named = set_entry (codes "projectcalico.org/name") item.name item.labels in
      if is_empty item.namespace
      then named
      else set_entry (codes "projectcalico.org/namespace") item.namespace named

  unfoldable pub calico_network_set_namespace_matches : Item F → Str → Namespace → Bool
  unfolding trim_space str_eq calico_namespace_labels
  calico_network_set_namespace_matches item selector peer_namespace =
      if is_empty item.namespace
      then str_eq (trim_space selector) (codes "global()")
        || is_empty selector
        || selector_matches parse selector []
      else if is_empty selector
      then str_eq item.namespace peer_namespace.name
      else selector_matches parse selector (calico_namespace_labels peer_namespace)

  -- unstructured.NestedStringSlice: nothing when one of the entries is no text.
  abbrev with_text : Value F → Option (List Str) → Option (List Str)
  with_text (text s) (some ss) = some (s ∷ ss)
  with_text _ _ = none

  all_texts : List (Value F) → Option (List Str)
  all_texts [] = some []
  all_texts (v ∷ vs) = with_text v (all_texts vs)

  unfoldable pub nested_string_slice : Fields F → Str → List Str
  unfolding all_texts
  nested_string_slice spec key = list_or_none (all_texts (nested_list F spec key))

  unfoldable pub calico_network_set_matches_any :
      List (Item F) → Str → Str → Namespace → Pod → Option Service → Bool
  unfolding calico_unstructured_labels calico_network_set_namespace_matches nested_string_slice
      ip_in_any_cidr
  calico_network_set_matches_any network_sets selector namespace_selector peer_namespace pod
        service =
      if is_empty selector
      then false
      else any
          (λ item.
            selector_matches parse selector (calico_unstructured_labels item)
            && calico_network_set_namespace_matches item namespace_selector peer_namespace
            && path_in N pod service (nested_string_slice item.spec (codes "nets")))
          network_sets

  -- The message of a criterion that does not hold, and then what the other criteria say.
  abbrev unless : Bool → Str → Bool × Str → Bool × Str
  unless failed reason rest = if failed then (false, reason) else rest

  unfoldable pub calico_entity_matches_pod :
      Fields F → Namespace → Pod → Option Service → List (Item F) → List (Str × Labels) → Bool × Str
  unfolding string_slice_field string_from_map ip_in_any_cidr calico_services_match
      calico_service_account_matches calico_network_set_matches_any calico_namespace_labels
      calico_pod_labels
  calico_entity_matches_pod entity namespace pod service network_sets service_accounts =
      let nets = list_or_none (string_slice_field F print entity (codes "nets")) in
      let not_nets = list_or_none (string_slice_field F print entity (codes "notNets")) in
      let selector = string_from_map F print entity (codes "selector") in
      let namespace_selector = string_from_map F print entity (codes "namespaceSelector") in
      let not_selector = string_from_map F print entity (codes "notSelector") in
      let in_sets : Str → Bool = λ s.
        calico_network_set_matches_any network_sets s namespace_selector namespace pod service in
      unless (not (is_empty nets) && not (path_in N pod service nets))
        (codes "nets do not include tested service/pod IPs")
        (unless (not (is_empty not_nets) && path_in N pod service not_nets)
          (codes "notNets exclude tested service/pod IPs")
          (unless (not (calico_services_match entity service))
            (codes "service match does not target this Service")
            (unless (not (calico_service_account_matches entity pod service_accounts))
              (codes "serviceAccount criteria do not match peer pod service account")
              (if not (is_empty selector) && in_sets selector
                then (true, codes "selector matches NetworkSet/GlobalNetworkSet")
                else unless
                    (not (is_empty namespace_selector)
                      && not (
                          selector_matches parse namespace_selector
                            (calico_namespace_labels namespace)))
                    (codes "namespaceSelector does not match peer namespace")
                    (unless
                      (not (is_empty selector)
                        && not (selector_matches parse selector (calico_pod_labels pod)))
                      (codes "selector does not match peer pod or network set")
                      (unless
                        (not (is_empty not_selector)
                          && selector_matches parse not_selector (calico_pod_labels pod))
                        (codes "notSelector excludes peer pod")
                        (unless (not (is_empty not_selector) && in_sets not_selector)
                          (codes "notSelector excludes matching NetworkSet/GlobalNetworkSet")
                          (true, codes "IP/service/selector criteria match"))))))))
