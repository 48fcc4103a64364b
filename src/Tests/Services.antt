-- ===== src/Tests/Services.antt =====
-- The laws of Services, applied to the Service "web".
use kube_net_mods.Prelude.{
  ◌+◌, ◌≡◌, refl, ◌↔◌, ◌⊎◌, true, false, List, [], ◌∷◌, some, codes, pos, Memᴰ, is_pos,
  if◌then◌else◌,
}
use kube_net_mods.Model.{fail, count_by_status}
use kube_net_mods.Service.Selection.{panic, select_service_port, select_service_port_panics_iff}
use kube_net_mods.Service.Ports.{
  PodPort, selected_connection_port_candidates, selected_connection_port_candidates_iff, Targets,
}
use kube_net_mods.Service.Endpoints.{Slices, slices, check_endpoints}
use kube_net_mods.Service.Endpoints.Counts.{unserved, check_endpoints_fails}
use kube_net_mods.Tests.Data.{label_sets, server, web, portless, http_port, empty_report}

select_service_port_panics_iff_example :
    (select_service_port portless (pos 0) ≡ panic) ↔ ((pos 0 ≡ pos 0) × (portless.ports ≡ []))
select_service_port_panics_iff_example = select_service_port_panics_iff portless (pos 0)

abbrev declared : List PodPort
declared =
    record {
      pod = codes "server";
      port_name = codes "http";
      port = pos 8080;
      protocol = codes "TCP";
      container = codes "main";
    }
    ∷ []

selected_connection_port_candidates_iff_example :
    Memᴰ (pos 8080) (selected_connection_port_candidates (some web) declared (pos 80)) ↔ (
      ((pos 8080 ≡ http_port.port) × (is_pos http_port.port ≡ true))
      ⊎ Targets http_port.target_port declared (pos 8080))
unfolding select_service_port
selected_connection_port_candidates_iff_example =
    selected_connection_port_candidates_iff web declared (pos 80) http_port (pos 8080) refl

abbrev drained : Slices
drained = slices ((record { addresses = codes "10.0.1.2" ∷ []; ready = some false } ∷ []) ∷ [])

check_endpoints_fails_example :
    count_by_status
      (check_endpoints label_sets empty_report (codes "web") (some web) (server ∷ []) drained)
      fail
    ≡ (if unserved label_sets (some web) drained
        then count_by_status empty_report fail + 1
        else count_by_status empty_report fail)
check_endpoints_fails_example =
    check_endpoints_fails label_sets empty_report (codes "web") (some web) (server ∷ []) drained
