-- ===== src/Calico/Ports.antt =====
-- The ports of a rule (internal/policy/calico/analyze.go): which of the tested ports a rule's `ports`
-- and `notPorts` leave.
pub mod Ranges
pub mod Matching
use kube_net_mods.Prelude.{
  ℕ, zero, suc, ◌+◌, ◌-◌, ◌*◌, Bool, true, false, not, ◌||◌, ◌&&◌, ◌==◌, ltb, leb, List, [], ◌∷◌,
  ◌++◌, Option, none, some, Str, codes, str_eq, is_empty, if◌then◌else◌, any, is_some, ℤ, pos,
  negsuc, int_eq, int_leb, is_space, contains, ◌≡◌, refl,
}
use kube_net_mods.Cluster.{
  Pod, Container, ContainerPort, Service, ServicePort, IntOrString, int_value, string_value,
}
use kube_net_mods.Native.Ports.{int32_port_from_int}
use kube_net_mods.Calico.Value.{
  Floats, Value, null, truth, int, float, text, array, object, Values, Fields, get, to_list,
  numeric_field, int32_port_from_float64,
}

pub record PortCandidate : Type 0 where
  pub number : ℤ
  pub name : Str

abbrev pub is_digit : ℕ → Bool
is_digit c = leb b'0' c && leb c b'9'

-- The number that the leading digits of a text give, after `n`; none of them is a number of its own.
unfoldable pub leading : ℕ → Str → ℕ
leading n [] = n
leading n (c ∷ s) = let more = leading (n * 10 + (c - b'0')) s in if is_digit c then more else n

abbrev pub starts_digit : Str → Bool
starts_digit [] = false
starts_digit (c ∷ s) = is_digit c

-- strconv.ParseInt's range of int64
abbrev limit : ℕ
limit = 9223372036854775807

abbrev in_range : ℕ → ℤ → Option ℤ
in_range bound value = if leb bound limit then some value else none

unfoldable pub negated : ℕ → Option ℤ
negated zero = some (pos 0)
negated (suc n) = in_range n (negsuc n)

unfoldable pub scan_digits : Bool → Str → Option ℤ
unfolding leading negated
scan_digits minus s =
    if not (starts_digit s)
    then none
    else if minus
    then negated (leading 0 s)
    else in_range (leading 0 s) (pos (leading 0 s))

unfoldable pub scan_sign : Str → Option ℤ
unfolding scan_digits
scan_sign [] = none
scan_sign (c ∷ s) =
    if c == b'-'
    then scan_digits true s
    else if c == b'+'
    then scan_digits false s
    else scan_digits false (c ∷ s)

-- fmt.Sscanf(s, "%d", &n): spaces but no line end, a sign, and digits; what follows is not read.
unfoldable pub scan_int : Str → Option ℤ
unfolding scan_sign is_space
scan_int [] = none
scan_int (c ∷ s) =
    let later = scan_int s in
    if c == 10 then none else if is_space c then later else scan_sign (c ∷ s)

-- strings.SplitN(s, ":", 2) of a text with a ":"
unfoldable pub split_colon : Str → Str × Str
split_colon [] = ([], [])
split_colon (c ∷ s) =
    let rest = split_colon s in if c == b':' then ([], s) else (c ∷ rest.0, rest.1)

abbrev within : ℤ → Option ℤ → Option ℤ → Bool
within number (some low) (some high) = int_leb low number && int_leb number high
within number _ _ = false

abbrev port_or_none : Option ℤ → Option ℤ
port_or_none none = none
port_or_none (some n) = int32_port_from_int n

abbrev pub is_port : Option ℤ → ℤ → Bool
is_port none number = false
is_port (some n) number = int_eq number n

unfoldable pub range_matches : Str → ℤ → Bool
unfolding scan_int split_colon int32_port_from_int
range_matches value number =
    let parts = split_colon value in
    elim (scan_int parts.0) [
      | none ↦ false
      | some start ↦ elim (scan_int parts.1) [
        | none ↦ false
        | some stop ↦
            int_leb start stop
            && within number (int32_port_from_int start) (int32_port_from_int stop)
      ]
    ]

-- A token that is a text.
unfoldable pub text_token_matches : Str → PortCandidate → Bool
unfolding scan_int range_matches int32_port_from_int str_eq contains
text_token_matches value port = elim (scan_int value) [
  | some parsed ↦ is_port (int32_port_from_int parsed) port.number
  | none ↦
      if contains value (codes ":") && range_matches value port.number
      then true
      else not (is_empty port.name) && str_eq value port.name
]

module _ (F : Floats) where
  unfoldable pub port_token_matches : Value F → PortCandidate → Bool
  unfolding text_token_matches int32_port_from_int int32_port_from_float64 numeric_field
  port_token_matches (int n) port = is_port (int32_port_from_int n) port.number
  port_token_matches (float f) port = is_port (int32_port_from_float64 F f) port.number
  port_token_matches (text s) port = text_token_matches s port
  port_token_matches (object fields) port =
      within port.number (numeric_field F fields (codes "min"))
        (numeric_field F fields (codes "max"))
  port_token_matches _ port = false

abbrev same_candidate : PortCandidate → PortCandidate → Bool
same_candidate a b = int_eq a.number b.number && str_eq a.name b.name

unfoldable pub contains_port_candidate : List PortCandidate → PortCandidate → Bool
unfolding str_eq
contains_port_candidate candidates candidate = any (λ c. same_candidate c candidate) candidates

unfoldable pub append_unique_port_candidate :
    List PortCandidate → PortCandidate → List PortCandidate
unfolding contains_port_candidate
append_unique_port_candidate candidates candidate =
    if contains_port_candidate candidates candidate
    then candidates
    else candidates ++ candidate ∷ []

abbrev pub contains_port_number : List ℤ → ℤ → Bool
contains_port_number ports port = any (λ p. int_eq p port) ports

abbrev numbered : ℤ → PortCandidate
numbered n = record { number = n; name = [] }

abbrev named : ℤ → Str → PortCandidate
named n s = record { number = n; name = s }

add_numbers : List PortCandidate → List ℤ → List PortCandidate
unfolding append_unique_port_candidate
add_numbers candidates [] = candidates
add_numbers candidates (p ∷ ports) =
    add_numbers (append_unique_port_candidate candidates (numbered p)) ports

-- The number of the last container port with the name, or the one given.
last_in_ports : Str → ℤ → List ContainerPort → ℤ
unfolding str_eq
last_in_ports name number [] = number
last_in_ports name number (p ∷ ports) =
    last_in_ports name (if str_eq p.name name then p.number else number) ports

last_in_containers : Str → ℤ → List Container → ℤ
unfolding last_in_ports
last_in_containers name number [] = number
last_in_containers name number (c ∷ cs) =
    last_in_containers name (last_in_ports name number c.ports) cs

last_in_pods : Str → ℤ → List Pod → ℤ
unfolding last_in_containers
last_in_pods name number [] = number
last_in_pods name number (pod ∷ pods) =
    last_in_pods name (last_in_containers name number pod.containers) pods

add_target_name : List PortCandidate → ServicePort → List Pod → List PortCandidate
unfolding append_unique_port_candidate last_in_pods
add_target_name candidates port pods = elim port.target_port [
  | int_value v ↦ candidates
  | string_value name ↦
      if is_empty name
      then candidates
      else append_unique_port_candidate candidates (named (last_in_pods name port.port pods) name)
]

add_service_port : List ℤ → List PortCandidate → ServicePort → List Pod → List PortCandidate
unfolding append_unique_port_candidate add_target_name
add_service_port ports candidates port pods =
    add_target_name
      (if contains_port_number ports port.port && not (is_empty port.name)
        then append_unique_port_candidate candidates (named port.port port.name)
        else candidates)
      port pods

add_service_ports : List ℤ → List PortCandidate → List ServicePort → List Pod → List PortCandidate
unfolding add_service_port
add_service_ports ports candidates [] pods = candidates
add_service_ports ports candidates (p ∷ ps) pods =
    add_service_ports ports (add_service_port ports candidates p pods) ps pods

add_container_ports : List ℤ → List PortCandidate → List ContainerPort → List PortCandidate
unfolding append_unique_port_candidate
add_container_ports ports candidates [] = candidates
add_container_ports ports candidates (p ∷ ps) =
    add_container_ports ports
      (if not (is_empty p.name) && contains_port_number ports p.number
        then append_unique_port_candidate candidates (named p.number p.name)
        else candidates)
      ps

add_containers : List ℤ → List PortCandidate → List Container → List PortCandidate
unfolding add_container_ports
add_containers ports candidates [] = candidates
add_containers ports candidates (c ∷ cs) =
    add_containers ports (add_container_ports ports candidates c.ports) cs

add_pods : List ℤ → List PortCandidate → List Pod → List PortCandidate
unfolding add_containers
add_pods ports candidates [] = candidates
add_pods ports candidates (pod ∷ pods) =
    add_pods ports (add_containers ports candidates pod.containers) pods

unfoldable pub calico_path_port_candidates : List ℤ → Option Service → List Pod → List PortCandidate
unfolding add_numbers add_service_ports add_pods
calico_path_port_candidates ports none pods = add_pods ports (add_numbers [] ports) pods
calico_path_port_candidates ports (some service) pods =
    add_pods ports (add_service_ports ports (add_numbers [] ports) service.ports pods) pods

module _ (F : Floats) where
  -- The candidates that an item matches, each once.
  unfoldable pub included_by :
      Value F → List PortCandidate → List PortCandidate → List PortCandidate
  unfolding port_token_matches contains_port_candidate
  included_by token included [] = included
  included_by token included (port ∷ ports) =
      included_by token
        (if port_token_matches F token port && not (contains_port_candidate included port)
          then included ++ port ∷ []
          else included)
        ports

  unfoldable pub included_ports :
      List (Value F) → List PortCandidate → List PortCandidate → List PortCandidate
  unfolding included_by
  included_ports [] included candidates = included
  included_ports (token ∷ tokens) included candidates =
      included_ports tokens (included_by token included candidates) candidates

  abbrev pub excluded : List (Value F) → PortCandidate → Bool
  excluded tokens port = any (λ token. port_token_matches F token port) tokens

  -- The part after `ports`.
  abbrev pub after_not_ports : Option (Value F) → List PortCandidate → Bool
  after_not_ports (some (array tokens)) candidates =
      any (λ port. not (excluded (to_list F tokens) port)) candidates
  after_not_ports _ candidates = not (is_empty candidates)

  abbrev after_ports : Option (Value F) → Option (Value F) → List PortCandidate → Bool
  after_ports none not_ports candidates = after_not_ports not_ports candidates
  after_ports (some (array (Values.end))) not_ports candidates = not (is_empty candidates)
  after_ports (some (array (Values.item v vs))) not_ports candidates =
      let included = included_ports (v ∷ to_list F vs) [] candidates in
      if is_empty included then false else after_not_ports not_ports included
  after_ports (some _) not_ports candidates = not (is_empty candidates)

  unfoldable pub calico_entity_ports_match : Option (Fields F) → List PortCandidate → Bool
  unfolding included_ports port_token_matches
  calico_entity_ports_match none ports = true
  calico_entity_ports_match (some entity) ports =
      if is_empty ports
      then true
      else after_ports (get F entity (codes "ports")) (get F entity (codes "notPorts")) ports
