-- ===== src/Istio/Traffic/Weighted/Laws.antt =====
-- When inspectIstioWeightedRouteRisks reports a split (internal/check/istio_traffic.go).
use kube_net_mods.Prelude.{
  Bool, true, false, ◌||◌, ◌≡◌, ◌↔◌, refl, sym, ◌∙◌, subst, Memᴰ, inl, inr, List, [], ◌∷◌, some,
  Str, is_empty, leb, length, Exists, Bool-cases, is_some, Option-cases, List-cases, mem_here,
  mem_there, mem_inv, sort_strings, mem-sort, arith, ℤ,
}
use kube_net_mods.Model.{Report}
use kube_net_mods.Cluster.{Pod, Service, Selectors}
use kube_net_mods.Calico.Value.{Floats}
use kube_net_mods.Istio.Request.{Request}
use kube_net_mods.Istio.Matching.{Regexps}
use kube_net_mods.Istio.Config.{VirtualService, DestinationRule}
use kube_net_mods.Istio.Traffic.{
  RouteDestination, istio_virtual_service_hosts_service, istio_route_destination_groups,
}
use kube_net_mods.Istio.Mtls.{MtlsMode}
use kube_net_mods.Istio.Traffic.Weighted.Shares.{Good, Bad, Good-Bad, share_cases}
use kube_net_mods.Istio.Traffic.Weighted.{
  shares, classify_istio_weighted_destinations, group_risk, first_risk,
}

is_empty-sort : (xs : List Str) → is_empty (sort_strings xs) ≡ is_empty xs
unfolding sort_strings
is_empty-sort [] = refl
is_empty-sort (x ∷ xs) = elim (List-cases (sort_strings (x ∷ xs))) [
  | inl e ↦ absurd (elim (subst (λ ys. Memᴰ x ys) e (mem-sort (x ∷ xs) mem_here)) [ ])
  | inr (y, ys, e) ↦ rw e refl
]

two_long :
    {A : Type 0} (x : A) (xs : List A) → (is_empty xs ≡ false) ↔ (leb 2 (length (x ∷ xs)) ≡ true)
two_long x [] = (λ e. cc, λ e. ground arith)
two_long x (y ∷ xs) = (λ e. ground arith, λ e. refl)

none_iff : (a b c : Bool) → ((a || b || c) ≡ false) ↔ ((a ≡ false) × (b ≡ false) × (c ≡ false))
none_iff a b c = (λ h. (ground arith, ground arith, ground arith), λ (h, k, l). ground arith)

-- A value that has not the property does not count.
Exists-tail :
    {A : Type 0} (P : A → Type 0) (x : A) (xs : List A) → ¬ P x → Exists P (x ∷ xs) ↔ Exists P xs
Exists-tail P x xs n = (
  λ (y, m, p). elim (mem_inv m) [
    | inl same ↦ absurd (n (subst P same p))
    | inr later ↦ (y, later, p)
  ],
  λ (y, m, p). (y, mem_there m, p),
)

module _ (K : Selectors) (service : Service) (pods : List Pod) (mode : MtlsMode) (service_port : ℤ)
    (rules : List DestinationRule) where
  module _ (namespace : Str) where
    abbrev Serves : RouteDestination → Type 0
    Serves dest = Good K service pods mode service_port rules namespace dest

    abbrev Fails : RouteDestination → Type 0
    Fails dest = Bad K service pods mode service_port rules namespace dest

    abbrev found : List RouteDestination → List Str × List Str
    found dests = shares K service pods mode service_port rules namespace dests

    goods_iff :
        (dests : List RouteDestination) → (is_empty (found dests).0 ≡ false) ↔ Exists Serves dests
    unfolding shares
    goods_iff [] = (λ e. cc, λ (x, m, g). elim m [ ])
    goods_iff (dest ∷ dests) =
        let (to, from) = goods_iff dests in
        elim (share_cases K service pods mode service_port rules namespace dest) [
          | inl (e, no_share) ↦
              let (drop, grow) = Exists-tail Serves dest dests (λ g. no_share g.0) in
              rw (e, shares) (λ h. grow (to h), λ g. from (drop g))
          | inr (inl (t, e, g)) ↦ rw (e, shares) (λ h. (dest, mem_here, g), λ _. refl)
          | inr (inr (t, e, b)) ↦
              let (drop, grow) =
                Exists-tail Serves dest dests
                  (λ g. Good-Bad K service pods mode service_port rules namespace dest g b) in
              rw (e, shares) (λ h. grow (to h), λ g. from (drop g))
        ]

    bads_iff :
        (dests : List RouteDestination) → (is_empty (found dests).1 ≡ false) ↔ Exists Fails dests
    unfolding shares
    bads_iff [] = (λ e. cc, λ (x, m, g). elim m [ ])
    bads_iff (dest ∷ dests) =
        let (to, from) = bads_iff dests in
        elim (share_cases K service pods mode service_port rules namespace dest) [
          | inl (e, no_share) ↦
              let (drop, grow) = Exists-tail Fails dest dests (λ g. no_share g.0) in
              rw (e, shares) (λ h. grow (to h), λ g. from (drop g))
          | inr (inr (t, e, b)) ↦ rw (e, shares) (λ h. (dest, mem_here, b), λ _. refl)
          | inr (inl (t, e, g)) ↦
              let (drop, grow) =
                Exists-tail Fails dest dests
                  (λ b. Good-Bad K service pods mode service_port rules namespace dest g b) in
              rw (e, shares) (λ h. grow (to h), λ g. from (drop g))
        ]

    -- The group splits its traffic over several destinations, a good and a bad one among them.
    abbrev pub Splits : List RouteDestination → Type 0
    Splits group = (leb 2 (length group) ≡ true) × Exists Serves group × Exists Fails group

    abbrev classified : List RouteDestination → List Str × List Str
    classified group =
        classify_istio_weighted_destinations K service pods mode service_port rules namespace group

    split_iff :
        (dest : RouteDestination) (dests : List RouteDestination)
        → ((is_empty dests
              || is_empty (classified (dest ∷ dests)).0
              || is_empty (classified (dest ∷ dests)).1)
            ≡ false)
          ↔ Splits (dest ∷ dests)
    unfolding classify_istio_weighted_destinations
    split_iff dest dests =
        let g = goods_iff (dest ∷ dests) in
        let b = bads_iff (dest ∷ dests) in
        let sg = is_empty-sort (found (dest ∷ dests)).0 in
        let sb = is_empty-sort (found (dest ∷ dests)).1 in
        let (long, more) = two_long dest dests in
        (
          λ h.
              let (l, some_good, some_bad) = (none_iff _ _ _).0 h in
              (long l, g.0 (sym sg ∙ some_good), b.0 (sym sb ∙ some_bad)),
          λ (l, some_good, some_bad).
              (none_iff _ _ _).1 (more l, sg ∙ g.1 some_good, sb ∙ b.1 some_bad),
        )

    group_risk_iff :
        (groups : List (List RouteDestination))
        → (is_some (group_risk K service pods mode service_port rules namespace groups) ≡ true)
          ↔ Exists Splits groups
    unfolding group_risk
    group_risk_iff [] = (λ e. cc, λ (x, m, s). elim m [ ])
    group_risk_iff ([] ∷ groups) =
        let (to, from) = group_risk_iff groups in
        let (drop, grow) = Exists-tail Splits [] groups (λ s. let l = s.0 in cc) in
        (λ h. grow (to h), λ s. from (drop s))
    group_risk_iff ((dest ∷ dests) ∷ groups) =
        let (to, from) = group_risk_iff groups in
        let (out, back) = split_iff dest dests in
        elim (Bool-cases (
          is_empty dests
          || is_empty (classified (dest ∷ dests)).0
          || is_empty (classified (dest ∷ dests)).1)) [
            | inr e ↦ rw (e, group_risk) (λ h. (dest ∷ dests, mem_here, out e), λ s. refl)
            | inl e ↦
                let (drop, grow) =
                  Exists-tail Splits (dest ∷ dests) groups
                    (λ s. let f = back s in ground (arith, e, f)) in
                rw (e, group_risk) (λ h. grow (to h), λ s. from (drop s))
          ]

  module _ {F : Floats} (R : Regexps) (request : Request) where
    -- A VirtualService hosts the Service and splits the request over a good and a bad destination.
    abbrev pub Risky : VirtualService F → Type 0
    Risky vs =
        (istio_virtual_service_hosts_service vs (some service) ≡ true)
        × Exists (Splits vs.namespace) (istio_route_destination_groups R K request vs)

    -- A split is reported exactly when some VirtualService that hosts the Service has a route for the
    -- request with several destinations, among them a good and a bad one. Both kinds have a positive
    -- weight and name a subset of the Service. The good one finds the subset in the DestinationRule of
    -- its host, its labels on a ready pod, and no TLS mode that a STRICT workload refuses; the bad one
    -- has no DestinationRule, or no such subset in it, or no ready pod with its labels, or a TLS mode
    -- other than ISTIO_MUTUAL against a STRICT workload.
    pub first_risk_iff :
        (report : Report) (services : List (VirtualService F))
        → ((first_risk K service pods mode service_port R rules request report services).1 ≡ true)
          ↔ Exists Risky services
    unfolding first_risk
    first_risk_iff report [] = (λ e. cc, λ (x, m, r). elim m [ ])
    first_risk_iff report (vs ∷ rest) =
        let (to, from) = first_risk_iff report rest in
        let groups = istio_route_destination_groups R K request vs in
        let (out, back) = group_risk_iff vs.namespace groups in
        elim (Bool-cases (istio_virtual_service_hosts_service vs (some service))) [
          | inr h ↦
              let (drop, grow) = Exists-tail Risky vs rest (λ r. ground (arith, h, r)) in
              rw (h, first_risk) (λ e. grow (to e), λ r. from (drop r))
          | inl h ↦
              elim (Option-cases
                (group_risk K service pods mode service_port rules vs.namespace groups)) [
                  | inr (found, e) ↦
                      rw (h, e, first_risk) (λ r. (vs, mem_here, (h, out (rw e refl))), λ r. refl)
                  | inl e ↦
                      let (drop, grow) =
                        Exists-tail Risky vs rest (λ r. let k = back r.1 in ground (arith, e, k)) in
                      rw (h, e, first_risk) (λ k. grow (to k), λ r. from (drop r))
                ]
        ]
