-- ===== src/Calico/Paths.antt =====
-- Whether a rule matches the tested path (internal/policy/calico/analyze.go, ruleMatchesPath).
use kube_net_mods.Prelude.{
  ℕ, Bool, true, false, not, ◌||◌, ◌&&◌, ltb, leb, List, [], ◌∷◌, ◌++◌, Option, none, some, Str,
  codes, str_eq, is_empty, if◌then◌else◌, any, length, ℤ, to_lower, join,
}
use kube_net_mods.Cluster.{Labels, Pod, Namespace, Service, Netip}
use kube_net_mods.Calico.Value.{Floats, Value, Fields, Item, get, has_fields, as_object, printed}
use kube_net_mods.Calico.Ports.{calico_entity_ports_match, calico_path_port_candidates}
use kube_net_mods.Calico.Entity.{CalicoSelectors, calico_entity_matches_pod}

pub data Direction : Type 0 where
  egress ingress : Direction

abbrev pub direction_text : Direction → Str
direction_text egress = codes "egress"
direction_text ingress = codes "ingress"

unfoldable pub append_unique_limited : List Str → Str → ℕ → List Str
unfolding str_eq
append_unique_limited items value limit =
    if is_empty value || any (λ item. str_eq item value) items
    then items
    else if ltb 0 limit && leb limit (length items)
    then items
    else items ++ value ∷ []

-- What is the same for every rule of a decision: the parameters, and the tested path.
pub record World (F : Floats) : Type 1 where
  pub netip : Netip
  pub print : Value F → Str
  pub parse : CalicoSelectors
  pub network_sets : List (Item F)
  pub service_accounts : List (Str × Labels)

pub record TestedPath : Type 0 where
  pub source_namespace : Namespace
  pub source : Pod
  pub target_namespace : Namespace
  pub targets : List Pod
  pub service : Option Service
  pub ports : List ℤ

module _ (F : Floats) (W : World F) where
  unfoldable pub protocol_text : Option (Value F) → Str
  unfolding to_lower
  protocol_text none = codes "<nil>"
  protocol_text (some v) = to_lower (printed F W.print v)

  unfoldable pub calico_rule_protocol_matches : Fields F → Bool
  unfolding protocol_text str_eq
  calico_rule_protocol_matches rule =
      let proto = protocol_text (get F rule (codes "protocol")) in
      is_empty proto || str_eq proto (codes "<nil>") || str_eq proto (codes "tcp")

  -- A pod against an entity, which is nil when the rule has none.
  abbrev pub entity_result : Option (Fields F) → Namespace → Pod → Option Service → Bool × Str
  entity_result none namespace pod service = (true, codes "no entity criteria, matches all packets")
  entity_result (some entity) namespace pod service =
      calico_entity_matches_pod F W.netip W.print W.parse entity namespace pod service
        W.network_sets W.service_accounts

  abbrev pub given : Option (Fields F) → Bool
  given none = false
  given (some entity) = has_fields F entity

  -- The target pods in turn: the first that matches, or the reasons of the others.
  any_target : Option (Fields F) → TestedPath → List Pod → List Str → Bool × Str
  unfolding calico_entity_matches_pod append_unique_limited join
  any_target entity path [] reasons =
      if is_empty reasons
      then (false, codes "destination criteria do not match target service/pods")
      else (
        false,
        codes "destination criteria do not match target service/pods: "
            ++ join reasons (codes "; "),
      )
  any_target entity path (pod ∷ pods) reasons =
      let result = entity_result entity path.target_namespace pod path.service in
      let later = any_target entity path pods (append_unique_limited reasons result.1 2) in
      if result.0 then result else later

  egress_matches : Option (Fields F) → Option (Fields F) → TestedPath → Bool × Str
  unfolding any_target calico_entity_matches_pod
  egress_matches source destination path =
      let own = entity_result source path.source_namespace path.source none in
      if given source && not own.0
      then (false, codes "source criteria do not match source pod: " ++ own.1)
      else if not (given destination)
      then (true, codes "no destination criteria, matches all destinations")
      else any_target destination path path.targets []

  -- The first target pod that the destination admits decides by the source; with one target the
  -- reason is named.
  first_target : Option (Fields F) → Option (Fields F) → TestedPath → List Pod → Bool × Str
  unfolding calico_entity_matches_pod
  first_target source destination path [] =
      (false, codes "destination criteria do not match target pod")
  first_target source destination path (pod ∷ pods) =
      let result = entity_result destination path.target_namespace pod path.service in
      let later = first_target source destination path pods in
      if result.0
      then entity_result source path.source_namespace path.source none
      else if leb (length path.targets) 1
      then (false, codes "destination criteria do not match target pod: " ++ result.1)
      else later

  ingress_matches : Option (Fields F) → Option (Fields F) → TestedPath → Bool × Str
  unfolding first_target calico_entity_matches_pod
  ingress_matches source destination path =
      if given destination
      then first_target source destination path path.targets
      else if not (given source)
      then (true, codes "no source criteria, matches all sources")
      else entity_result source path.source_namespace path.source none

  abbrev peer_of : Direction → Option (Fields F) → Option (Fields F) → Option (Fields F)
  peer_of egress source destination = destination
  peer_of ingress source destination = source

  abbrev by_direction : Direction → Option (Fields F) → Option (Fields F) → TestedPath → Bool × Str
  by_direction egress source destination path = egress_matches source destination path
  by_direction ingress source destination path = ingress_matches source destination path

  unfoldable pub rule_matches_path : Fields F → Direction → TestedPath → Bool × Str
  unfolding calico_rule_protocol_matches calico_entity_ports_match calico_path_port_candidates
      egress_matches ingress_matches
  rule_matches_path rule direction path =
      let source = as_object F (get F rule (codes "source")) in
      let destination = as_object F (get F rule (codes "destination")) in
      if not (calico_rule_protocol_matches rule)
      then (false, codes "rule protocol does not match tested protocol")
      else if not (
          calico_entity_ports_match F (peer_of direction source destination)
            (calico_path_port_candidates path.ports path.service path.targets))
      then (false, codes "port/notPort criteria do not match tested path")
      else by_direction direction source destination path
