-- ===== src/Istio/Rules.antt =====
-- The rules of an Istio authorization policy (internal/check/istio_authz.go), for a request.
pub mod Laws
pub mod Numbers
pub mod Risk
use kube_net_mods.Prelude.{
  ℕ, suc, ◌+◌, Bool, true, false, ◌||◌, ◌&&◌, not, List, [], ◌∷◌, ◌++◌, Option, none, some, Str,
  codes, str_eq, if◌then◌else◌, any, all, is_empty, has_prefix, to_lower, join, map, digits,
  is_some,
}
use kube_net_mods.Istio.Request.{Request}
use kube_net_mods.Istio.Patterns.{
  istio_string_list_matches, istio_string_list_any_matches, istio_any_string_list_matches,
  istio_any_string_list_any_matches,
}

-- securityapi.Source, Operation, Condition and Rule; a nil pointer is `none`.
pub record Source : Type 0 where
  pub namespaces : List Str
  pub not_namespaces : List Str
  pub service_accounts : List Str
  pub not_service_accounts : List Str
  pub principals : List Str
  pub not_principals : List Str
  pub request_principals : List Str
  pub not_request_principals : List Str

pub record Operation : Type 0 where
  pub hosts : List Str
  pub not_hosts : List Str
  pub ports : List Str
  pub not_ports : List Str
  pub methods : List Str
  pub not_methods : List Str
  pub paths : List Str
  pub not_paths : List Str

pub record AuthCondition : Type 0 where
  pub key : Str
  pub values : List Str
  pub not_values : List Str

-- A Rule_From and a Rule_To are their source and operation: nil in either place is `none`.
pub record AuthRule : Type 0 where
  pub from : List (Option Source)
  pub to : List (Option Operation)
  pub when : List (Option AuthCondition)

unfoldable pub istio_relative_service_account : Str → Str → Str → Str
unfolding str_eq
istio_relative_service_account namespace service_account policy_namespace =
    if is_empty service_account
    then []
    else if is_empty namespace || str_eq namespace policy_namespace
    then service_account
    else namespace ++ codes "/" ++ service_account

unfoldable pub istio_condition_value : Str → Request → Option Str
unfolding str_eq to_lower
istio_condition_value raw_key request =
    let key = to_lower raw_key in
    if str_eq key (codes "source.namespace")
    then (if is_empty request.source_namespace then none else some request.source_namespace)
    else if str_eq key (codes "source.serviceaccount")
    then (if is_empty request.source_namespace || is_empty request.source_service_account
        then none
        else some (request.source_namespace ++ codes "/" ++ request.source_service_account))
    else if str_eq key (codes "request.method")
    then (if is_empty request.method then none else some request.method)
    else if str_eq key (codes "request.url_path")
    then (if is_empty request.path then none else some request.path)
    else if str_eq key (codes "destination.port")
    then (if not (is_empty request.port_text) && not (str_eq request.port_text (codes "0"))
        then some request.port_text
        else none)
    else none

-- The text is in the first list, if that is given, and not in the second.
abbrev pub listed : List Str → List Str → Str → Bool → Bool
listed only never value ignore_case = not (
    not (istio_string_list_matches only value ignore_case)
    || istio_string_list_any_matches never value ignore_case)

unfoldable pub istio_authorization_source_matches : Option Source → Str → Request → Bool
unfolding istio_relative_service_account istio_string_list_matches istio_any_string_list_matches
istio_authorization_source_matches none policy_namespace request = true
istio_authorization_source_matches (some source) policy_namespace request =
    let account =
      istio_relative_service_account request.source_namespace request.source_service_account
        policy_namespace in
    if not (listed source.namespaces source.not_namespaces request.source_namespace false)
    then false
    else if not (listed source.service_accounts source.not_service_accounts account false)
    then false
    else if not (is_empty source.principals)
        && not (istio_any_string_list_matches source.principals request.source_principals false)
    then false
    else if not (is_empty source.not_principals)
        && istio_any_string_list_any_matches source.not_principals request.source_principals false
    then false
    else if not (is_empty source.request_principals)
        && not (
            istio_any_string_list_matches source.request_principals request.request_principals
              false)
    then false
    else not (
        not (is_empty source.not_request_principals)
        && istio_any_string_list_any_matches source.not_request_principals
            request.request_principals false)

unfoldable pub istio_authorization_from_matches : List (Option Source) → Str → Request → Bool
unfolding istio_authorization_source_matches
istio_authorization_from_matches from policy_namespace request =
    if is_empty from
    then true
    else any (λ item. istio_authorization_source_matches item policy_namespace request) from

unfoldable pub istio_authorization_operation_matches : Option Operation → Request → Bool
unfolding istio_string_list_matches istio_any_string_list_matches
istio_authorization_operation_matches none request = true
istio_authorization_operation_matches (some operation) request =
    if not (istio_any_string_list_matches operation.hosts request.authority_hosts true)
      || istio_any_string_list_any_matches operation.not_hosts request.authority_hosts true
    then false
    else if not (listed operation.ports operation.not_ports request.port_text false)
    then false
    else if not (listed operation.methods operation.not_methods request.method false)
    then false
    else listed operation.paths operation.not_paths request.path false

unfoldable pub istio_authorization_to_matches : List (Option Operation) → Request → Bool
unfolding istio_authorization_operation_matches
istio_authorization_to_matches to request =
    if is_empty to
    then true
    else any (λ item. istio_authorization_operation_matches item request) to

abbrev pub condition_holds : Request → Option AuthCondition → Bool
condition_holds request none = true
condition_holds request (some condition) = elim (istio_condition_value condition.key request) [
  | none ↦ false
  | some value ↦ listed condition.values condition.not_values value false
]

unfoldable pub istio_authorization_when_matches : List (Option AuthCondition) → Request → Bool
unfolding istio_condition_value istio_string_list_matches
istio_authorization_when_matches conditions request = all (condition_holds request) conditions

unfoldable pub istio_authorization_rule_matches : AuthRule → Str → Request → Bool
unfolding istio_authorization_from_matches istio_authorization_to_matches
    istio_authorization_when_matches
istio_authorization_rule_matches rule policy_namespace request =
    istio_authorization_from_matches rule.from policy_namespace request
    && istio_authorization_to_matches rule.to request
    && istio_authorization_when_matches rule.when request

abbrev pub rule_hits : Str → Request → Option AuthRule → Bool
rule_hits policy_namespace request none = false
rule_hits policy_namespace request (some rule) =
    istio_authorization_rule_matches rule policy_namespace request

-- The loop, with the number of the rule that comes next.
numbers_from : ℕ → List (Option AuthRule) → Str → Request → List ℕ
numbers_from next [] policy_namespace request = []
numbers_from next (rule ∷ rules) policy_namespace request =
    let later = numbers_from (next + 1) rules policy_namespace request in
    if rule_hits policy_namespace request rule then next ∷ later else later

unfoldable pub istio_authorization_rule_numbers : List (Option AuthRule) → Str → Request → List ℕ
unfolding numbers_from istio_authorization_rule_matches
istio_authorization_rule_numbers rules policy_namespace request =
    numbers_from 1 rules policy_namespace request

unfoldable pub format_rule_numbers : List ℕ → Str
unfolding digits join
format_rule_numbers (number ∷ []) = codes "rule " ++ digits number
format_rule_numbers numbers = codes "rules " ++ join (map digits numbers) (codes ", ")

abbrev source_uses_jwt : Option Source → Bool
source_uses_jwt none = false
source_uses_jwt (some source) =
    not (is_empty source.request_principals) || not (is_empty source.not_request_principals)

abbrev condition_uses_jwt : Option AuthCondition → Bool
condition_uses_jwt none = false
condition_uses_jwt (some condition) = has_prefix (to_lower condition.key) (codes "request.auth.")

unfoldable pub istio_authorization_rule_uses_jwt : Option AuthRule → Bool
unfolding has_prefix to_lower
istio_authorization_rule_uses_jwt none = false
istio_authorization_rule_uses_jwt (some rule) =
    any source_uses_jwt rule.from || any condition_uses_jwt rule.when

abbrev pub operation_has_http : Option Operation → Bool
operation_has_http none = false
operation_has_http (some operation) =
    not (is_empty operation.methods)
    || not (is_empty operation.not_methods)
    || not (is_empty operation.paths)
    || not (is_empty operation.not_paths)
    || not (is_empty operation.hosts)
    || not (is_empty operation.not_hosts)

abbrev pub operation_has_port : Option Operation → Bool
operation_has_port none = false
operation_has_port (some operation) =
    not (is_empty operation.ports) || not (is_empty operation.not_ports)

abbrev pub condition_has_http : Option AuthCondition → Bool
condition_has_http none = false
condition_has_http (some condition) =
    has_prefix (to_lower condition.key) (codes "request.")
    || has_prefix (to_lower condition.key) (codes "experimental.envoy.filters.http.")

abbrev pub condition_has_port : Option AuthCondition → Bool
condition_has_port none = false
condition_has_port (some condition) = str_eq (to_lower condition.key) (codes "destination.port")

-- The two flags that the loops raise.
unfoldable pub istio_deny_rule_has_http_attributes_without_port : Option AuthRule → Bool
unfolding has_prefix to_lower str_eq
istio_deny_rule_has_http_attributes_without_port none = false
istio_deny_rule_has_http_attributes_without_port (some rule) =
    (any operation_has_http rule.to || any condition_has_http rule.when)
    && not (any operation_has_port rule.to || any condition_has_port rule.when)
