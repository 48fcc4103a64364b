-- ===== src/Service/Selection.antt =====
-- selectServicePort (internal/check/service_target.go). Asked for port 0 it reads `Ports[0]`, which is
-- a panic in Go when the Service has no ports.
use kube_net_mods.Prelude.{
  false, List, [], ◌∷◌, ◌≡◌, refl, ◌↔◌, Option, none, some, ℤ, pos, int_eq, int_eq_iff, find,
  find-some, any, if◌then◌else◌, arith, ◌++◌,
}
use kube_net_mods.Cluster.{Service, ServicePort}

pub data Selection : Type 0 where
  selected : ServicePort → Selection
  missing : Selection
  panic : Selection

abbrev of_option : Option ServicePort → Selection
of_option none = missing
of_option (some port) = selected port

abbrev first_port : List ServicePort → Selection
first_port [] = panic
first_port (port ∷ ports) = selected port

unfoldable pub select_service_port : Service → ℤ → Selection
select_service_port service requested =
    if int_eq requested (pos 0)
    then first_port service.ports
    else of_option (find (λ port. int_eq port.port requested) service.ports)

found_ne_panic :
    (ports : List ServicePort) (requested : ℤ)
    → ¬ (of_option (find (λ port. int_eq port.port requested) ports) ≡ panic)
found_ne_panic ports requested = ground arith

first_port_panics : (ports : List ServicePort) → first_port ports ≡ panic → ports ≡ []
first_port_panics [] h = refl
first_port_panics (p ∷ ports) h = cc

of_selected :
    (o : Option ServicePort) (port : ServicePort) → of_option o ≡ selected port → o ≡ some port
of_selected none port h = cc
of_selected (some p) port h = cc

-- The selection panics exactly for the default port of a Service without ports.
pub select_service_port_panics_iff :
    (service : Service) (requested : ℤ)
    → (select_service_port service requested ≡ panic) ↔ ((requested ≡ pos 0) × (service.ports ≡ []))
unfolding select_service_port
select_service_port_panics_iff service requested = (
  λ h. (
    (int_eq_iff requested (pos 0)).0 (ground (arith, found_ne_panic service.ports requested)),
    first_port_panics service.ports (ground (arith, found_ne_panic service.ports requested)),
  ),
  λ (e, none_there). rw (e, none_there),
)

-- A port selected by number is the first of the Service's ports with that number.
pub select_service_port_first :
    (service : Service) (requested : ℤ) (port : ServicePort)
    → int_eq requested (pos 0) ≡ false
    → select_service_port service requested ≡ selected port
    → (before : List ServicePort) × (after : List ServicePort) × (service.ports
        ≡ before ++ (port ∷ after))
      × (port.port ≡ requested)
      × (any (λ p. int_eq p.port requested) before ≡ false)
unfolding select_service_port
select_service_port_first service requested port other h =
    let (before, after, e, hit, none_before) =
      find-some (λ p. int_eq p.port requested) service.ports
        (of_selected (find (λ p. int_eq p.port requested) service.ports) port (rw other at h)) in
    (before, after, e, (int_eq_iff port.port requested).0 hit, none_before)
