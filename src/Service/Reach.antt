-- ===== src/Service/Reach.antt =====
-- checkRuntimePath (internal/check/service_runtime.go): its parts that ask nothing of the cluster.
pub mod Route
pub mod Direct
pub mod Writing
pub mod Progress
use kube_net_mods.Prelude.{
  ℕ, zero, suc, Bool, true, false, not, ◌||◌, ◌&&◌, ltb, List, [], ◌∷◌, ◌++◌, Option, none, some,
  Str, codes, str_eq, is_empty, if◌then◌else◌, any, has_prefix, contains, trim_space, join, length,
  ℤ, pos, is_pos, int_eq, decimal, sprintf,
}
use kube_net_mods.Model.{Report}
use kube_net_mods.Cluster.{Pod, Service, ServicePort, IntOrString, int_value, string_value}
use kube_net_mods.Native.Ports.{int32_port_from_int}
use kube_net_mods.Runtime.Resolv.{fields}
use kube_net_mods.Runtime.Urls.{url, cluster_name, rooted}
use kube_net_mods.Service.Selection.{Selection, selected, missing, panic, select_service_port}
use kube_net_mods.Service.Ports.{PodPort, target_is}
use kube_net_mods.Service.Endpoints.{has_diagnosis_containing}

unfoldable pub has_policy_path_diagnosis : Report → Bool
unfolding contains
has_policy_path_diagnosis report =
    any
      (λ d.
        contains d.message (codes "Calico ")
        || contains d.message (codes "Cilium ")
        || contains d.message (codes "NetworkPolicy "))
      report.diagnoses

unfoldable pub has_node_local_resolver : List Str → Bool
unfolding has_prefix
has_node_local_resolver values = any (λ value. has_prefix value (codes "169.254.")) values

take_chars : ℕ → Str → Str
take_chars zero s = []
take_chars (suc n) [] = []
take_chars (suc n) (c ∷ s) = c ∷ take_chars n s

-- The length counts characters, which are bytes where the output is ASCII.
unfoldable pub compact_command_output : Str → Str
unfolding take_chars fields join trim_space
compact_command_output given =
    let value = join (fields (trim_space given)) (codes " ") in
    if is_empty value
    then codes "(no error text)"
    else if ltb 220 (length value)
    then take_chars 217 value ++ codes "..."
    else value

abbrev or_text : Str → Str → Str
or_text s default = if is_empty s then default else s

abbrev port_or_first : ℤ → List ServicePort → ℤ
port_or_first port [] = port
port_or_first port (p ∷ ps) = if int_eq port (pos 0) then p.port else port

unfoldable pub service_fqdn_url : Service → Str → Str → Str → Str → ℤ → Str
unfolding rooted str_eq
service_fqdn_url service namespace name scheme path port =
    let host : Str =
      if str_eq service.kind (codes "ExternalName")
      then service.external_name
      else cluster_name namespace name in
    url (or_text scheme (codes "http")) host (port_or_first port service.ports)
      (rooted (or_text path (codes "/")))

-- A number that is new, at the end.
abbrev pub add_new : ℤ → List ℤ → List ℤ
add_new value out = if any (λ p. int_eq p value) out then out else out ++ value ∷ []

add_matching : IntOrString → List PodPort → List ℤ → List ℤ
add_matching target [] out = out
add_matching target (p ∷ ps) out =
    add_matching target ps (if target_is target p then add_new p.port out else out)

add_tcp : List PodPort → List ℤ → List ℤ
unfolding str_eq
add_tcp [] out = out
add_tcp (p ∷ ps) out =
    add_tcp ps
      (if str_eq p.protocol (codes "TCP") && is_pos p.port then add_new p.port out else out)

abbrev or_number : IntOrString → List ℤ
or_number (string_value name) = []
or_number (int_value v) = elim (int32_port_from_int v) [ none ↦ [] | some number ↦ number ∷ [] ]

-- The numbers that a target port names, or its own number
targeted : IntOrString → List PodPort → List ℤ
unfolding add_matching int32_port_from_int
targeted target ports =
    let out = add_matching target ports [] in if is_empty out then or_number target else out

abbrev chosen : ServicePort → Selection → ServicePort
chosen first (selected port) = port
chosen first _ = first

service_targets : Service → ℤ → List PodPort → List ℤ
unfolding targeted select_service_port
service_targets service requested ports = elim service.ports [
  | [] ↦ []
  | first ∷ rest ↦ targeted (chosen first (select_service_port service requested)).target_port ports
]

unfoldable pub direct_pod_port_candidates : Option Service → ℤ → List PodPort → List ℤ
unfolding service_targets add_tcp
direct_pod_port_candidates none requested ports = add_tcp ports []
direct_pod_port_candidates (some service) requested ports =
    add_tcp ports (service_targets service requested ports)
