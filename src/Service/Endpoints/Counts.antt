-- ===== src/Service/Endpoints/Counts.antt =====
-- When checkEndpoints fails (internal/check/service_target.go).
use kube_net_mods.Prelude.{
  ℕ, ◌+◌, Bool, true, false, ◌&&◌, not, ◌≡◌, refl, ap, ◌∙◌, inl, inr, List, [], ◌∷◌, Option, none,
  some, Str, codes, str_eq, is_empty, if◌then◌else◌, Bool-cases, insert, str_leb, sort_strings,
}
use kube_net_mods.Model.{Report, Status, fail, status_eq, add, count_by_status}
use kube_net_mods.Model.Laws.{count_by_status-add_categorized, count_by_status-diagnose}
use kube_net_mods.Cluster.{Pod, Service, Selectors}
use kube_net_mods.Service.Endpoints.{
  Slices, slices, unreadable, ready_addresses, match_report, no_address, address_report,
  check_endpoints,
}

is_empty-insert : (s : Str) (ss : List Str) → is_empty (insert s ss) ≡ false
unfolding insert
is_empty-insert s [] = refl
is_empty-insert s (t ∷ ts) = elim (Bool-cases (str_leb s t)) [
  | inl e ↦ rw e refl
  | inr e ↦ rw e refl
]

is_empty-sort : (ss : List Str) → is_empty (sort_strings ss) ≡ is_empty ss
unfolding sort_strings
is_empty-sort [] = refl
is_empty-sort (s ∷ ss) = is_empty-insert s (sort_strings ss)

count-add :
    (r : Report) (layer check : Str) (status : Status) (message : Str) (counted : Status)
    → count_by_status (add r layer check status message) counted ≡ (
        if status_eq status counted
        then count_by_status r counted + 1
        else count_by_status r counted)
unfolding add
count-add r layer check status message counted =
    count_by_status-add_categorized r layer check status [] message counted

count-match_report :
    (r : Report) (name : Str) (missing : List Str)
    → count_by_status (match_report r name missing) fail ≡ count_by_status r fail
unfolding match_report
count-match_report r name [] = count-add r _ _ _ _ fail
count-match_report r name (m ∷ ms) = count_by_status-diagnose _ _ fail ∙ count-add r _ _ _ _ fail

module _ (K : Selectors) where
  count-no_address :
      (r : Report) (name : Str) (service : Service)
      → count_by_status (no_address K r name service) fail ≡ count_by_status r fail + 1
  unfolding no_address
  count-no_address r name service = elim (Bool-cases (is_empty service.selector)) [
    | inl e ↦ rw (e, no_address) (count_by_status-diagnose _ _ fail ∙ count-add r _ _ _ _ fail)
    | inr e ↦
        rw (e, no_address)
          (either _ _ _ (count_by_status-diagnose _ _ fail ∙ count-add r _ _ _ _ fail)
            (count-add r _ _ _ _ fail))
  ]
    where
      either :
          {n : ℕ} (b : Bool) (s t : Report)
          → count_by_status s fail ≡ n
          → count_by_status t fail ≡ n
          → count_by_status (if b then s else t) fail ≡ n
      either true s t e f = e
      either false s t e f = f

  count-address_report :
      (r : Report) (name : Str) (service : Service) (pods : List Pod) (found : List Str)
      → count_by_status (address_report K r name service pods found) fail
        ≡ (if is_empty found then count_by_status r fail + 1 else count_by_status r fail)
  unfolding address_report
  count-address_report r name service pods [] = count-no_address r name service
  count-address_report r name service [] (ip ∷ ips) = count-add r _ _ _ _ fail
  count-address_report r name service (p ∷ pods) (ip ∷ ips) =
      count-match_report _ name _ ∙ count-add r _ _ _ _ fail

  -- The Service has no backend that can be seen: its slices are unreadable or hold no ready address.
  abbrev pub unserved : Option Service → Slices → Bool
  unserved none answer = false
  unserved (some service) (unreadable error) = not (str_eq service.kind (codes "ExternalName"))
  unserved (some service) (slices found) =
      not (str_eq service.kind (codes "ExternalName")) && is_empty (ready_addresses found)

  -- The check adds one FAIL for a Service with unreadable slices or without a ready address, and none
  -- for any other: not for a missing Service, an ExternalName, or pods that no endpoint has.
  pub check_endpoints_fails :
      (r : Report) (name : Str) (service : Option Service) (pods : List Pod) (answer : Slices)
      → count_by_status (check_endpoints K r name service pods answer) fail
        ≡ (if unserved service answer then count_by_status r fail + 1 else count_by_status r fail)
  unfolding check_endpoints
  check_endpoints_fails r name none pods answer = count-add r _ _ _ _ fail
  check_endpoints_fails r name (some service) pods (unreadable error) =
      elim (Bool-cases (str_eq service.kind (codes "ExternalName"))) [
        | inl e ↦ rw (e, check_endpoints) (count-add r _ _ _ _ fail)
        | inr e ↦ rw (e, check_endpoints) (count-add r _ _ _ _ fail)
      ]
  check_endpoints_fails r name (some service) pods (slices found) =
      elim (Bool-cases (str_eq service.kind (codes "ExternalName"))) [
        | inl e ↦ rw (e, check_endpoints) (count-add r _ _ _ _ fail)
        | inr e ↦
            rw (e, check_endpoints)
              (count-address_report r name service pods _
                ∙ ap (λ b. if b then count_by_status r fail + 1 else count_by_status r fail)
                    (is_empty-sort (ready_addresses found)))
      ]
