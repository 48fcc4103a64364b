-- ===== src/Istio/Policies.antt =====
-- Which authorization policies and request authentications apply to a Service's pods
-- (internal/check/istio_authz.go and istio_jwt.go).
pub mod Laws
pub mod Risky
use kube_net_mods.Prelude.{
  ℕ, suc, ◌+◌, Bool, true, false, ◌||◌, ◌&&◌, not, List, [], ◌∷◌, ◌++◌, map, Option, none, some,
  Str, codes, str_eq, is_empty, if◌then◌else◌, any, keep, is_some, to_lower, equal_fold, trim_space,
  quote, digits, join, concat, sort_strings,
}
use kube_net_mods.Cluster.{Labels, lookup, value_or_empty, Pod, Service, Selectors}
use kube_net_mods.Istio.Request.{Request}
use kube_net_mods.Istio.Rules.{
  AuthRule, istio_authorization_rule_numbers, format_rule_numbers,
  istio_authorization_rule_uses_jwt, istio_deny_rule_has_http_attributes_without_port,
}

pub data Action : Type 0 where
  allow deny audit custom : Action

abbrev pub action_eq : Action → Action → Bool
action_eq allow allow = true
action_eq deny deny = true
action_eq audit audit = true
action_eq custom custom = true
action_eq _ _ = false

-- istiotype.PolicyTargetReference
pub record TargetRef : Type 0 where
  pub group : Str
  pub kind : Str
  pub name : Str
  pub namespace : Str

-- What an AuthorizationPolicy and a RequestAuthentication select by: `selector` holds the match
-- labels, which are empty without a selector.
pub record Scope : Type 0 where
  pub target_refs : List (Option TargetRef)
  pub target_ref : Option TargetRef
  pub selector : Labels

-- securityv1.AuthorizationPolicy; `provider` is the name of the extension provider, or empty.
pub record AuthorizationPolicy : Type 0 where
  pub name : Str
  pub namespace : Str
  pub annotations : Labels
  pub scope : Scope
  pub action : Action
  pub provider : Str
  pub rules : List (Option AuthRule)

-- securityv1.RequestAuthentication, with the issuers of its JWT rules
pub record RequestAuthentication : Type 0 where
  pub name : Str
  pub namespace : Str
  pub scope : Scope
  pub issuers : List Str

abbrev pub full_name : Str → Str → Str
full_name namespace name = namespace ++ codes "/" ++ name

unfoldable pub target_ref_matches_service : Option TargetRef → Option Service → Str → Bool
unfolding str_eq to_lower
target_ref_matches_service none service policy_namespace = false
target_ref_matches_service (some ref) none policy_namespace = false
target_ref_matches_service (some ref) (some service) policy_namespace =
    let group = to_lower ref.group in
    let namespace = if is_empty ref.namespace then policy_namespace else ref.namespace in
    (is_empty group || str_eq group (codes "core"))
    && str_eq (to_lower ref.kind) (codes "service")
    && str_eq namespace service.namespace
    && str_eq ref.name service.name

unfoldable pub istio_authorization_policy_dry_run : AuthorizationPolicy → Bool
unfolding equal_fold trim_space str_eq
istio_authorization_policy_dry_run item =
    equal_fold (trim_space (value_or_empty (lookup (codes "istio.io/dry-run") item.annotations)))
      (codes "true")

abbrev pub enforced : Option AuthorizationPolicy → Bool
enforced none = false
enforced (some item) = not (istio_authorization_policy_dry_run item)

unfoldable pub enforced_istio_authorization_policies :
    List (Option AuthorizationPolicy) → List AuthorizationPolicy
unfolding istio_authorization_policy_dry_run
enforced_istio_authorization_policies [] = []
enforced_istio_authorization_policies (none ∷ items) = enforced_istio_authorization_policies items
enforced_istio_authorization_policies (some item ∷ items) =
    let rest = enforced_istio_authorization_policies items in
    if istio_authorization_policy_dry_run item then rest else item ∷ rest

module _ (K : Selectors) where
  open K use {set_matches}

  unfoldable pub istio_workload_selector_matches_any : Labels → List Pod → Bool
  istio_workload_selector_matches_any match_labels pods =
      if is_empty match_labels then true else any (λ pod. set_matches match_labels pod.labels) pods

  -- istioAuthorizationPolicySelectsTarget and requestAuthenticationSelectsTarget
  unfoldable pub scope_selects_target : Scope → Str → Option Service → List Pod → Bool
  unfolding target_ref_matches_service istio_workload_selector_matches_any
  scope_selects_target scope namespace service pods =
      if not (is_empty scope.target_refs)
      then any (λ ref. target_ref_matches_service ref service namespace) scope.target_refs
      else if is_some scope.target_ref
      then target_ref_matches_service scope.target_ref service namespace
      else istio_workload_selector_matches_any scope.selector pods

  module _ (service : Option Service) (pods : List Pod) where
    abbrev pub selects_target : AuthorizationPolicy → Bool
    selects_target item = scope_selects_target item.scope item.namespace service pods

    -- A policy with the action that selects the target.
    abbrev pub applies : Action → AuthorizationPolicy → Bool
    applies action item = action_eq item.action action && selects_target item

    abbrev pub matching_rules : Request → AuthorizationPolicy → List ℕ
    matching_rules request item = istio_authorization_rule_numbers item.rules item.namespace request

    -- A policy of which some rule matches the request.
    abbrev pub hits : Request → AuthorizationPolicy → Bool
    hits request item = not (is_empty (matching_rules request item))

    abbrev provider_text : AuthorizationPolicy → Str
    provider_text item =
        if is_empty item.provider then [] else codes " provider " ++ quote item.provider

    unfoldable pub matching_istio_authorization_policies :
        List AuthorizationPolicy → Action → Request → List Str
    unfolding scope_selects_target istio_authorization_rule_numbers format_rule_numbers sort_strings
        quote
    matching_istio_authorization_policies items action request = sort_strings (
        map
          (λ item. concat (
            full_name item.namespace item.name
            ∷ codes " "
            ∷ format_rule_numbers (matching_rules request item)
            ∷ provider_text item
            ∷ []))
          (keep (λ item. applies action item && hits request item) items))

    -- The joined names, or nothing when no ALLOW policy applies or one of them matches.
    unfoldable pub istio_allow_default_deny : List AuthorizationPolicy → Request → Option Str
    unfolding scope_selects_target istio_authorization_rule_numbers sort_strings join
    istio_allow_default_deny items request =
        let chosen = keep (applies allow) items in
        if is_empty chosen || any (hits request) chosen
        then none
        else some (
            join (sort_strings (map (λ item. full_name item.namespace item.name) chosen))
              (codes ", "))

    unfoldable pub risky_from : ℕ → AuthorizationPolicy → List (Option AuthRule) → List Str
    unfolding istio_deny_rule_has_http_attributes_without_port digits concat
    risky_from next item [] = []
    risky_from next item (rule ∷ rules) =
        let later = risky_from (next + 1) item rules in
        if istio_deny_rule_has_http_attributes_without_port rule
        then concat (full_name item.namespace item.name ∷ codes " rule " ∷ digits next ∷ []) ∷ later
        else later

    unfoldable pub risky_istio_deny_http_rules : List AuthorizationPolicy → List Str
    unfolding risky_from scope_selects_target
    risky_istio_deny_http_rules [] = []
    risky_istio_deny_http_rules (item ∷ items) =
        let later = risky_istio_deny_http_rules items in
        if applies deny item then risky_from 1 item item.rules ++ later else later

    unfoldable pub istio_authorization_uses_jwt : List AuthorizationPolicy → Bool
    unfolding istio_authorization_rule_uses_jwt scope_selects_target
    istio_authorization_uses_jwt items =
        any (λ item. selects_target item && any istio_authorization_rule_uses_jwt item.rules) items
