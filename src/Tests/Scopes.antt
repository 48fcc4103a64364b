-- ===== src/Tests/Scopes.antt =====
-- The choice of a sidecar, for the client of the test cluster: one sidecar without a selector is listed
-- before one that selects the client.
use kube_net_mods.Prelude.{◌≡◌, List, [], ◌∷◌, Option, none, some, Str, codes, find}
use kube_net_mods.Cluster.{Labels}
use kube_net_mods.Istio.Sidecar.{Sidecar, effective_of}
use kube_net_mods.Istio.Sidecar.Effective.{
  present, first_of, unselective, selects, effective_of_first,
}
use kube_net_mods.Tests.Data.{label_sets, client}

abbrev sidecar_for : Str → Labels → Sidecar
sidecar_for name selector = record {
  name = name;
  namespace = codes "shop";
  selector = selector;
  egress = (codes "./*" ∷ []) ∷ [];
}

abbrev listed : List (Option Sidecar)
listed =
    none ∷ some (sidecar_for (codes "all") []) ∷ some (sidecar_for (codes "own") client.labels) ∷ []

effective_of_first_example :
    effective_of label_sets client.labels none listed
    ≡ first_of
        (find (selects label_sets client.labels) (present listed))
        (first_of none (find unselective (present listed)))
effective_of_first_example = effective_of_first label_sets client.labels none listed
