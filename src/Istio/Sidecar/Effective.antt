-- ===== src/Istio/Sidecar/Effective.antt =====
-- Which sidecar selects a pod, and when the check reports its scope (internal/check/istio_sidecar.go).
use kube_net_mods.Prelude.{
  Bool, not, ◌&&◌, ◌≡◌, refl, List, [], ◌∷◌, Option, none, some, is_empty, find, Bool-cases, inl,
  inr,
}
use kube_net_mods.Cluster.{Labels, Selectors}
use kube_net_mods.Istio.Sidecar.{Sidecar, or_first, effective_of}

abbrev pub present : List (Option Sidecar) → List Sidecar
present [] = []
present (none ∷ rest) = present rest
present (some sidecar ∷ rest) = sidecar ∷ present rest

abbrev pub first_of : Option Sidecar → Option Sidecar → Option Sidecar
first_of (some a) b = some a
first_of none b = b

abbrev pub unselective : Sidecar → Bool
unselective sidecar = is_empty sidecar.selector

first_of-or_first :
    (default : Option Sidecar) (s : Sidecar) (o : Option Sidecar)
    → first_of (or_first default s) o ≡ first_of default (some s)
first_of-or_first none s o = refl
first_of-or_first (some d) s o = refl

module _ (K : Selectors) where
  -- The sidecar has a selector, which the labels match.
  abbrev pub selects : Labels → Sidecar → Bool
  selects labels sidecar = not (unselective sidecar) && K.set_matches sidecar.selector labels

  -- A sidecar whose selector matches goes before one without a selector, wherever they are listed; among
  -- several of either kind the first counts, and a default found earlier before those listed.
  pub effective_of_first :
      (labels : Labels) (default : Option Sidecar) (listed : List (Option Sidecar))
      → effective_of K labels default listed
        ≡ first_of
            (find (selects labels) (present listed))
            (first_of default (find unselective (present listed)))
  unfolding effective_of
  effective_of_first labels none [] = refl
  effective_of_first labels (some d) [] = refl
  effective_of_first labels default (none ∷ rest) = effective_of_first labels default rest
  effective_of_first labels default (some s ∷ rest) = elim (Bool-cases (is_empty s.selector)) [
    | inl e ↦
        rw (e, effective_of_first labels (or_first default s) rest, first_of-or_first default s)
          refl
    | inr e ↦ elim (Bool-cases (K.set_matches s.selector labels)) [
      | inl f ↦ rw (e, f) refl
      | inr f ↦ rw (e, f) (effective_of_first labels default rest)
    ]
  ]
