-- ===== src/Istio/Traffic/Weighted/Shares.antt =====
-- What one destination of a split is (internal/check/istio_traffic.go,
-- classifyIstioWeightedDestinations), read from the DestinationRule of its host.
use mathlib.Core.Option.{some-injective}
use kube_net_mods.Prelude.{
  Bool, true, false, not, ◌||◌, ◌&&◌, ◌==◌, ◌≡◌, ◌↔◌, ◌⊎◌, refl, sym, ◌∙◌, subst, inl, inr, List,
  Option, none, some, Str, is_empty, Exists, Each, Bool-cases, Option-cases, arith, ℤ,
  if◌then◌else◌, is_pos, any_iff, ap,
}
use kube_net_mods.Cluster.{Labels, Pod, Service, Selectors}
use kube_net_mods.Istio.Config.{TlsMode, DestinationRule}
use kube_net_mods.Istio.Traffic.{
  RouteDestination, istio_host_matches_service, find_destination_rule,
  destination_rule_subset_labels, ready_pods_matching_labels, serves,
}
use kube_net_mods.Istio.Traffic.Routing.Broken.{length_zero, no_match_iff}
use kube_net_mods.Istio.Mtls.{MtlsMode, is_strict, destination_rule_tls_mode_for_subset}
use kube_net_mods.Istio.Mtls.Checks.{is_istio_mutual}
use kube_net_mods.Istio.Traffic.Weighted.{Share, ignored, good, bad, conflict, share_of}

-- The client sets a TLS mode that is not ISTIO_MUTUAL, and the workload is STRICT.
abbrev pub Refused : MtlsMode → Option TlsMode → Type 0
Refused mode setting =
    (is_strict mode ≡ true)
    × ((tls : TlsMode) × (setting ≡ some tls) × (is_istio_mutual tls ≡ false))

conflict_iff :
    (mode : MtlsMode) (setting : Option TlsMode)
    → ((tls : TlsMode) × (conflict mode setting ≡ some tls)) ↔ Refused mode setting
conflict_iff mode none = (λ (t, e). cc, λ (s, (t, e, m)). cc)
conflict_iff mode (some tls) = elim (Bool-cases (is_strict mode && not (is_istio_mutual tls))) [
  | inl e ↦ rw e (λ _. (ground arith, (tls, refl, ground arith)), λ _. (tls, refl))
  | inr e ↦ rw e (
    λ (t, f). cc,
    λ (s, (t, f, m)).
        let same = ap is_istio_mutual (some-injective tls t f) in
        absurd (ground (arith, e, s, same, m)),
  )
]

module _ (K : Selectors) (service : Service) (pods : List Pod) (mode : MtlsMode) (service_port : ℤ)
    (rules : List DestinationRule) (namespace : Str) where
  abbrev rule_of : RouteDestination → Option DestinationRule
  rule_of dest = find_destination_rule rules dest.host namespace (some service)

  -- The destination takes a positive share of the traffic to a subset of the Service.
  abbrev pub Counts : RouteDestination → Type 0
  Counts dest =
      (is_pos dest.weight ≡ true)
      × (istio_host_matches_service dest.host namespace (some service) ≡ true)
      × (is_empty dest.subset ≡ false)

  abbrev pub RefusedBy : DestinationRule → Str → Type 0
  RefusedBy rule subset =
      Refused mode (destination_rule_tls_mode_for_subset rule subset service_port)

  -- What the DestinationRule of the host makes of the subset: labels that a ready pod has, under a TLS
  -- mode that the workload takes,
  abbrev pub Sound : Str → DestinationRule → Type 0
  Sound subset rule =
      (¬ RefusedBy rule subset)
      × ((labels : Labels) × (destination_rule_subset_labels rule subset ≡ some labels)
          × Exists (λ pod. serves K labels pod ≡ true) pods)

  -- or no subset, labels that no ready pod has, a TLS mode that the workload refuses.
  abbrev pub Faulty : Str → DestinationRule → Type 0
  Faulty subset rule =
      (destination_rule_subset_labels rule subset ≡ none)
      ⊎ (RefusedBy rule subset
          ⊎ ((labels : Labels) × (destination_rule_subset_labels rule subset ≡ some labels)
              × Each (λ pod. serves K labels pod ≡ false) pods))

  -- The destination serves the Service with ready pods.
  abbrev pub Good : RouteDestination → Type 0
  Good dest =
      Counts dest × ((rule : DestinationRule) × (rule_of dest ≡ some rule) × Sound dest.subset rule)

  -- The destination takes a share of the traffic where it fails.
  abbrev pub Bad : RouteDestination → Type 0
  Bad dest =
      Counts dest
      × ((rule_of dest ≡ none)
          ⊎ ((rule : DestinationRule) × (rule_of dest ≡ some rule) × Faulty dest.subset rule))

  pub Good-Bad : (dest : RouteDestination) → Good dest → ¬ Bad dest
  Good-Bad dest (_, (rule, f, (taken, (labels, l, (pod, m, ready))))) (_, wrong) = elim wrong [
    | inl missing ↦ cc
    | inr (other, g, faulty) ↦
        let same : other ≡ rule = some-injective other rule (sym g ∙ f) in
        elim (subst (Faulty dest.subset) same faulty) [
          | inl none_there ↦ cc
          | inr (inl refused) ↦ taken refused
          | inr (inr (found, k, unready)) ↦
              let agree : found ≡ labels = some-injective found labels (sym k ∙ l) in
              let miss = subst (λ x. Each (λ p. serves K x p ≡ false) pods) agree unready pod m in
              cc
        ]
  ]

  -- What the round of the loop says of the destination.
  pub data Reading (dest : RouteDestination) : Share → Type 0 where
    as_ignored : ¬ Counts dest → Reading dest ignored
    as_good : (text : Str) → Good dest → Reading dest (good text)
    as_bad : (text : Str) → Bad dest → Reading dest (bad text)

  guard_iff :
      (a b c : Bool) → ((not a || not b || c) ≡ false) ↔ ((a ≡ true) × (b ≡ true) × (c ≡ false))
  guard_iff a b c = (λ h. (ground arith, ground arith, ground arith), λ (h, k, l). ground arith)

  -- With the subset's labels, the ready pods decide.
  pods_decide :
      (dest : RouteDestination) (rule : DestinationRule) (labels : Labels)
      → Counts dest
      → rule_of dest ≡ some rule
      → destination_rule_subset_labels rule dest.subset ≡ some labels
      → ¬ RefusedBy rule dest.subset
      → (wrong right : Str)
      → Reading dest
          (if ready_pods_matching_labels K pods labels == 0 then bad wrong else good right)
  unfolding ready_pods_matching_labels
  pods_decide dest rule labels counts f l taken wrong right =
      let count = length_zero (serves K labels) pods in
      elim (Bool-cases (ready_pods_matching_labels K pods labels == 0)) [
        | inl z ↦
            let idle = (no_match_iff K service pods labels).0 z in
            rw z (as_bad wrong (counts, inr (rule, f, inr (inr (labels, l, idle)))))
        | inr z ↦
            let some_ready = (any_iff (serves K labels) pods).0 (ground (arith, count, z)) in
            rw z (as_good right (counts, (rule, f, (taken, (labels, l, some_ready)))))
      ]

  share_of-Reading :
      (dest : RouteDestination)
      → Reading dest (share_of K service pods mode service_port rules namespace dest)
  unfolding share_of
  share_of-Reading dest =
      elim (Bool-cases (
        not (is_pos dest.weight)
        || not (istio_host_matches_service dest.host namespace (some service))
        || is_empty dest.subset)) [
          | inl skip ↦ rw (skip, share_of) (as_ignored (λ c. cc ((guard_iff _ _ _).1 c, skip)))
          | inr on ↦
              let counts : Counts dest = (guard_iff _ _ _).0 on in
              elim (Option-cases (rule_of dest)) [
                | inl f ↦ rw (on, f, share_of) (as_bad _ (counts, inl f))
                | inr (rule, f) ↦
                    elim (Option-cases (destination_rule_subset_labels rule dest.subset)) [
                      | inl l ↦ rw (on, f, l, share_of) (as_bad _ (counts, inr (rule, f, inl l)))
                      | inr (labels, l) ↦
                          let setting =
                            destination_rule_tls_mode_for_subset rule dest.subset service_port in
                          let (to, from) = conflict_iff mode setting in
                          elim (Option-cases (conflict mode setting)) [
                            | inr (tls, e) ↦
                                rw (on, f, l, e, share_of)
                                  (as_bad _ (counts, inr (rule, f, inr (inl (to (tls, e))))))
                            | inl e ↦
                                rw (on, f, l, e, share_of)
                                  (pods_decide dest rule labels counts f l
                                    (λ r. let (t, k) = from r in cc) _ _)
                          ]
                    ]
              ]
        ]

  Reading-cases :
      (dest : RouteDestination) (s : Share)
      → Reading dest s
      → ((s ≡ ignored) × (¬ Counts dest))
        ⊎ ((text : Str) × (s ≡ good text) × Good dest)
        ⊎ ((text : Str) × (s ≡ bad text) × Bad dest)
  Reading-cases dest s (as_ignored n) = inl (refl, n)
  Reading-cases dest s (as_good text g) = inr (inl (text, refl, g))
  Reading-cases dest s (as_bad text b) = inr (inr (text, refl, b))

  pub share_cases :
      (dest : RouteDestination)
      → ((share_of K service pods mode service_port rules namespace dest ≡ ignored)
          × (¬ Counts dest))
        ⊎ ((text : Str) × (share_of K service pods mode service_port rules namespace dest
              ≡ good text)
            × Good dest)
        ⊎ ((text : Str) × (share_of K service pods mode service_port rules namespace dest
              ≡ bad text)
            × Bad dest)
  share_cases dest = Reading-cases dest _ (share_of-Reading dest)
