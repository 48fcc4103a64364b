-- ===== src/Istio/Traffic/Routing/Broken.antt =====
-- When inspectIstioTrafficRouting finds an issue (internal/check/istio_traffic.go).
use mathlib.Core.Option.{some-injective}
use kube_net_mods.Prelude.{
  sym, subst, Bool, true, false, not, ◌||◌, ◌≡◌, ◌↔◌, ◌⊎◌, refl, inl, inr, List, [], ◌∷◌, Option,
  none, some, Str, is_empty, ◌==◌, length, keep, any, any_none, none_of_any, ap, ◌∙◌, Exists, Each,
  Bool-cases, Option-cases, mem_here, mem_there, mem_inv, arith, is_some,
}
use kube_net_mods.Cluster.{Labels, Pod, Service, Selectors}
use kube_net_mods.Calico.Value.{Floats}
use kube_net_mods.Istio.Request.{Request}
use kube_net_mods.Istio.Matching.{Regexps}
use kube_net_mods.Istio.Config.{VirtualService, DestinationRule}
use kube_net_mods.Istio.Traffic.{
  RouteDestination, istio_host_matches_service, find_destination_rule,
  destination_rule_subset_labels, ready_pods_matching_labels, serves,
  istio_virtual_service_hosts_service, istio_route_destinations,
}
use kube_net_mods.Istio.Traffic.Routing.{
  Issue, config_name, destination_issue, first_destination_issue, first_issue,
}

pub length_zero :
    {A : Type 0} (p : A → Bool) (xs : List A) → (length (keep p xs) == 0) ≡ not (any p xs)
length_zero p [] = refl
length_zero p (x ∷ xs) = elim (Bool-cases (p x)) [
  | inl hit ↦ rw hit (ground arith)
  | inr miss ↦ rw miss (length_zero p xs)
]

module _ (K : Selectors) (service : Service) (pods : List Pod) where
  -- No pod is ready and has the labels.
  pub no_match_iff :
      (labels : Labels)
      → ((ready_pods_matching_labels K pods labels == 0) ≡ true)
        ↔ Each (λ pod. serves K labels pod ≡ false) pods
  unfolding ready_pods_matching_labels
  no_match_iff labels =
      let same = length_zero (serves K labels) pods in
      (
        λ e. none_of_any (serves K labels) pods (ground (arith, same, e)),
        λ none_serves. same ∙ ap not (any_none (serves K labels) pods none_serves),
      )

  module _ (rules : List DestinationRule) where
    -- The rule has no such subset, or no ready pod has the labels of the subset.
    abbrev pub Unserved : DestinationRule → Str → Type 0
    Unserved rule subset =
        (destination_rule_subset_labels rule subset ≡ none)
        ⊎ ((labels : Labels) × (destination_rule_subset_labels rule subset ≡ some labels)
            × Each (λ pod. serves K labels pod ≡ false) pods)

    -- A destination in the namespace sends the Service to a subset that the DestinationRule of the host
    -- does not serve.
    pub data Broken (namespace : Str) (dest : RouteDestination) : Type 0 where
      unserved :
          (rule : DestinationRule)
          → istio_host_matches_service dest.host namespace (some service) ≡ true
          → is_empty dest.subset ≡ false
          → find_destination_rule rules dest.host namespace (some service) ≡ some rule
          → Unserved rule dest.subset
          → Broken namespace dest

    module _ (namespace vs : Str) (dest : RouteDestination) where
      abbrev rule_there : Option DestinationRule
      rule_there = find_destination_rule rules dest.host namespace (some service)

      no_rule-Broken : rule_there ≡ none → ¬ Broken namespace dest
      no_rule-Broken f (unserved rule h s e u) = cc

      guarded-Broken :
          (not (istio_host_matches_service dest.host namespace (some service))
              || is_empty dest.subset)
            ≡ true
          → ¬ Broken namespace dest
      guarded-Broken g (unserved rule h s e u) = ground (arith, g, h, s)

      served-Broken :
          (rule : DestinationRule) (labels : Labels)
          → rule_there ≡ some rule
          → destination_rule_subset_labels rule dest.subset ≡ some labels
          → ready_pods_matching_labels K pods labels == 0 ≡ false
          → ¬ Broken namespace dest
      served-Broken rule labels f l z (unserved other h s e u) =
          let same : other ≡ rule = some-injective other rule (sym e ∙ f) in
          elim (subst (λ x. Unserved x dest.subset) same u) [
            | inl missing ↦ cc
            | inr (found, l', unready) ↦
                let agree : found ≡ labels = some-injective found labels (sym l' ∙ l) in
                let zero =
                  (no_match_iff labels).1
                    (subst (λ x. Each (λ pod. serves K x pod ≡ false) pods) agree unready) in
                ground (arith, z, zero)
          ]

      pub issue_iff :
          (is_some (destination_issue K service pods rules namespace vs dest) ≡ true)
          ↔ Broken namespace dest
      unfolding destination_issue
      issue_iff =
          elim (Bool-cases (
            not (istio_host_matches_service dest.host namespace (some service))
            || is_empty dest.subset)) [
              | inl g ↦ rw (g, destination_issue) (λ e. cc, λ b. absurd (guarded-Broken g b))
              | inr g ↦
                  let host : istio_host_matches_service dest.host namespace (some service) ≡ true =
                    ground (arith, g) in
                  let subset : is_empty dest.subset ≡ false = ground (arith, g) in
                  elim (Option-cases rule_there) [
                    | inl f ↦
                        rw (g, f, destination_issue) (λ e. cc, λ b. absurd (no_rule-Broken f b))
                    | inr (rule, f) ↦
                        elim (Option-cases (destination_rule_subset_labels rule dest.subset)) [
                          | inl l ↦
                              rw (g, f, l, destination_issue)
                                (λ e. unserved rule host subset f (inl l), λ b. refl)
                          | inr (labels, l) ↦
                              elim (Bool-cases (ready_pods_matching_labels K pods labels == 0)) [
                                | inl z ↦
                                    rw (g, f, l, z, destination_issue)
                                      (
                                        λ e.
                                            unserved rule host subset f
                                              (inr (labels, l, (no_match_iff labels).0 z)),
                                        λ b. refl,
                                      )
                                | inr z ↦
                                    rw (g, f, l, z, destination_issue)
                                      (λ e. cc, λ b. absurd (served-Broken rule labels f l z b))
                              ]
                        ]
                  ]
            ]

    first_destination_issue_iff :
        (namespace vs : Str) (dests : List RouteDestination)
        → (is_some (first_destination_issue K service pods rules namespace vs dests) ≡ true)
          ↔ Exists (Broken namespace) dests
    unfolding first_destination_issue
    first_destination_issue_iff namespace vs [] = (λ e. cc, λ (x, m, b). elim m [ ])
    first_destination_issue_iff namespace vs (dest ∷ dests) =
        let (to, from) = issue_iff namespace vs dest in
        let (out, back) = first_destination_issue_iff namespace vs dests in
        elim (Option-cases (destination_issue K service pods rules namespace vs dest)) [
          | inr (issue, e) ↦
              rw (e, first_destination_issue) (λ h. (dest, mem_here, to (rw e refl)), λ b. refl)
          | inl e ↦
              rw (e, first_destination_issue)
                (
                  λ h. let (x, m, b) = out h in (x, mem_there m, b),
                  λ (x, m, b). elim (mem_inv m) [
                    | inl same ↦
                        let b' = from (subst (Broken namespace) same b) in ground (arith, e, b')
                    | inr later ↦ back (x, later, b)
                  ],
                )
        ]

    module _ {F : Floats} (R : Regexps) (request : Request) where
      -- A VirtualService hosts the Service and has a broken destination for the request.
      abbrev pub Breaks : VirtualService F → Type 0
      Breaks vs =
          (istio_virtual_service_hosts_service vs (some service) ≡ true)
          × Exists (Broken vs.namespace) (istio_route_destinations R K request vs)

      -- The routing inspection finds an issue exactly when some VirtualService that hosts the Service
      -- has, among the destinations of its routes that match the request, one that sends the Service to
      -- a subset that is missing from the DestinationRule of its host or that no ready pod serves.
      pub first_issue_iff :
          (services : List (VirtualService F))
          → ((issue : Issue) × (first_issue K service pods R rules (some request) services
                ≡ some (some issue)))
            ↔ Exists Breaks services
      unfolding first_issue
      first_issue_iff [] = (λ (issue, e). cc, λ (x, m, b). elim m [ ])
      first_issue_iff (vs ∷ rest) =
          let (out, back) = first_issue_iff rest in
          let dests = istio_route_destinations R K request vs in
          let name = config_name vs.namespace vs.name in
          let (to, from) = first_destination_issue_iff vs.namespace name dests in
          elim (Bool-cases (istio_virtual_service_hosts_service vs (some service))) [
            | inr h ↦
                rw (h, first_issue)
                  (
                    λ found. let (x, m, b) = out found in (x, mem_there m, b),
                    λ (x, m, b). elim (mem_inv m) [
                      | inl same ↦
                          let b' = (subst Breaks same b).0 in absurd (ground (arith, h, b'))
                      | inr later ↦ back (x, later, b)
                    ],
                  )
            | inl h ↦
                elim (Option-cases
                  (first_destination_issue K service pods rules vs.namespace name dests)) [
                    | inr (issue, e) ↦
                        rw (h, e, first_issue)
                          (λ found. (vs, mem_here, (h, to (rw e refl))), λ b. (issue, refl))
                    | inl e ↦
                        rw (h, e, first_issue)
                          (
                            λ found. let (x, m, b) = out found in (x, mem_there m, b),
                            λ (x, m, b). elim (mem_inv m) [
                              | inl same ↦
                                  let b' = from (subst Breaks same b).1 in
                                  absurd (ground (arith, e, b'))
                              | inr later ↦ back (x, later, b)
                            ],
                          )
                  ]
          ]
