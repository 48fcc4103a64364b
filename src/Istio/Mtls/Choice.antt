-- ===== src/Istio/Mtls/Choice.antt =====
-- Which PeerAuthentication of a namespace applies to pods (internal/check/istio_mtls.go).
use kube_net_mods.Prelude.{
  Bool, not, ◌&&◌, ◌≡◌, refl, List, [], ◌∷◌, Option, none, some, find, Bool-cases, inl, inr, Str, ℤ,
}
use kube_net_mods.Cluster.{Pod, Selectors}
use kube_net_mods.Istio.Client.{Answer}
use kube_net_mods.Istio.Policies.{istio_workload_selector_matches_any}
use kube_net_mods.Istio.Mtls.{PeerAuthentication, has_selector, selected_from}

abbrev pub or_else :
    Option PeerAuthentication → Option PeerAuthentication → Option PeerAuthentication
or_else (some a) b = some a
or_else none b = b

module _ (ask : Str → Answer (Option PeerAuthentication)) (port : ℤ) (K : Selectors) where
  -- The object has a selector, which the labels of one of the pods match.
  abbrev pub selects : List Pod → PeerAuthentication → Bool
  selects pods item = has_selector item && istio_workload_selector_matches_any K item.selector pods

  -- Of the PeerAuthentications of a namespace, one whose selector matches a pod goes before one without
  -- a selector, wherever they are listed; among several of either kind the first counts, and a default
  -- found earlier before those listed.
  pub selected_from_first :
      (pods : List Pod) (default : Option PeerAuthentication) (listed : List PeerAuthentication)
      → selected_from ask port K pods default listed
        ≡ or_else
            (find (selects pods) listed)
            (or_else default (find (λ item. not (has_selector item)) listed))
  unfolding selected_from
  selected_from_first pods none [] = refl
  selected_from_first pods (some d) [] = refl
  selected_from_first pods none (s ∷ rest) = elim (Bool-cases (has_selector s)) [
    | inr e ↦ rw (e, selected_from, selected_from_first pods (some s) rest) refl
    | inl e ↦ elim (Bool-cases (istio_workload_selector_matches_any K s.selector pods)) [
      | inl f ↦ rw (e, f, selected_from) refl
      | inr f ↦ rw (e, f, selected_from) (selected_from_first pods none rest)
    ]
  ]
  selected_from_first pods (some d) (s ∷ rest) = elim (Bool-cases (has_selector s)) [
    | inr e ↦ rw (e, selected_from) (selected_from_first pods (some d) rest)
    | inl e ↦ elim (Bool-cases (istio_workload_selector_matches_any K s.selector pods)) [
      | inl f ↦ rw (e, f, selected_from) refl
      | inr f ↦ rw (e, f, selected_from) (selected_from_first pods (some d) rest)
    ]
  ]
