-- ===== src/Istio/Authz.antt =====
-- The explanation of an RBAC denial (internal/check/istio_authz.go, istio_jwt.go): which Istio object
-- explains that Envoy denied a request. The report is passed from step to step.
pub mod Laws
pub mod Writing
use kube_net_mods.Prelude.{
  ℕ, Bool, true, false, ◌||◌, ◌&&◌, not, List, [], ◌∷◌, ◌++◌, map, Option, none, some, Str, codes,
  is_empty, if◌then◌else◌, any, find, keep, quote, join, concat, sort_strings,
}
use kube_net_mods.Model.{Report, Status, warn, fail, add, diagnose}
use kube_net_mods.Cluster.{Pod, Service, Selectors}
use kube_net_mods.Native.Path.{service_name}
use kube_net_mods.Istio.Request.{Urls, ServiceOptions, Request, new_request}
use kube_net_mods.Istio.Client.{
  Answer, Listing, list_istio_policies, istio_target_policy_namespaces, add_istio_list_warning,
}
use kube_net_mods.Istio.Rules.{istio_authorization_rule_numbers, format_rule_numbers}
use kube_net_mods.Istio.Policies.{
  AuthorizationPolicy, RequestAuthentication, deny, custom, full_name, applies, hits,
  matching_rules, scope_selects_target, enforced_istio_authorization_policies,
  matching_istio_authorization_policies, istio_allow_default_deny, risky_istio_deny_http_rules,
  istio_authorization_uses_jwt,
}

abbrev pub with_request : Option Request → (Request → Report) → Option Report
with_request none explain = none
with_request (some request) explain = some (explain request)

-- `if step() { return }`, with the report that the step leaves
abbrev pub unless_done : Report × Bool → (Report → Report) → Report
unless_done step next = if step.1 then step.0 else next step.0

-- The Istio client: whether there is one, the mesh's root namespace, and what it lists.
pub record Mesh : Type 0 where
  pub connected : Bool
  pub root_namespace : Str
  pub policies : Str → Answer (Option AuthorizationPolicy)
  pub authentications : Str → Answer (Option RequestAuthentication)

unfoldable pub request_authentication_summary : RequestAuthentication → Str
unfolding sort_strings join concat
request_authentication_summary item =
    let name = full_name item.namespace item.name in
    let issuers = sort_strings (keep (λ issuer. not (is_empty issuer)) item.issuers) in
    if is_empty issuers
    then name
    else concat (name ∷ codes " issuer(s) " ∷ join issuers (codes "|") ∷ [])

module _ (K : Selectors) where
  unfoldable pub request_authentication_selects_target :
      Option RequestAuthentication → Option Service → List Pod → Bool
  unfolding scope_selects_target
  request_authentication_selects_target none service pods = false
  request_authentication_selects_target (some item) service pods =
      scope_selects_target K item.scope item.namespace service pods

  -- The summaries of the request authentications that select the target.
  unfoldable pub summaries :
      Option Service → List Pod → List (Option RequestAuthentication) → List Str
  unfolding request_authentication_selects_target request_authentication_summary
  summaries service pods [] = []
  summaries service pods (none ∷ found) = summaries service pods found
  summaries service pods (some item ∷ found) =
      let rest = summaries service pods found in
      if request_authentication_selects_target (some item) service pods
      then request_authentication_summary item ∷ rest
      else rest

  abbrev jwt_layer : Str
  jwt_layer = codes "Istio JWT Layer"

  -- The report with the request authentications named, and true, or unchanged and false.
  unfoldable pub jwt_verdict : Report → Service → Status → List Str → Report × Bool
  unfolding add diagnose quote concat service_name sort_strings join
  jwt_verdict report service status [] = (report, false)
  jwt_verdict report service status (m ∷ ms) =
      let text = join (sort_strings (m ∷ ms)) (codes ", ") in
      (
        diagnose
            (add report jwt_layer (codes "request authentication") status (
              concat (
                codes "Target workload for Service "
                ∷ quote service.name
                ∷ codes " is selected by Istio RequestAuthentication object(s): "
                ∷ text
                ∷ codes ". KubeNetMods does not validate JWT tokens."
                ∷ [])))
            (concat (
              codes "Primary issue candidate: target workload for Service "
              ∷ quote (service_name (some service))
              ∷ codes " is selected by Istio RequestAuthentication object(s) "
              ∷ text
              ∷ codes
                  ". Check JWT issuer/audience/token and any AuthorizationPolicy request.auth/requestPrincipals requirements; KubeNetMods does not validate JWT tokens."
              ∷ [])),
        true,
      )

  unfoldable pub jwt_listed :
      Report → Service → List Pod → Status → Listing (Option RequestAuthentication) → Report × Bool
  unfolding jwt_verdict summaries add_istio_list_warning
  jwt_listed report service pods status listing = elim listing.error [
    | none ↦ jwt_verdict report service status (summaries (some service) pods listing.found)
    | some error ↦
        let warned =
          add_istio_list_warning report jwt_layer (codes "request authentications") error in
        if is_empty listing.found
        then (warned, false)
        else jwt_verdict warned service status (summaries (some service) pods listing.found)
  ]

  unfoldable pub inspect_istio_request_authentication :
      Mesh → Report → Option Service → List Pod → Status → Report × Bool
  unfolding jwt_listed list_istio_policies istio_target_policy_namespaces
  inspect_istio_request_authentication mesh report none pods status = (report, false)
  inspect_istio_request_authentication mesh report (some service) pods status =
      if not mesh.connected
      then (report, false)
      else jwt_listed report service pods status (
          list_istio_policies mesh.authentications
            (istio_target_policy_namespaces mesh.root_namespace service.namespace))

  abbrev authz_layer : Str
  authz_layer = codes "Istio Authorization Layer"

  module _ (service : Service) (pods : List Pod) (source : Pod) where
    -- A DENY policy that applies to the target and matches the request.
    abbrev pub denies : Request → AuthorizationPolicy → Bool
    denies request item =
        applies K (some service) pods deny item && hits K (some service) pods request item

    unfoldable pub denied_report : Report → Request → AuthorizationPolicy → Report
    unfolding add diagnose quote concat service_name istio_authorization_rule_numbers
        format_rule_numbers
    denied_report report request item =
        let name = full_name item.namespace item.name in
        let rule_text = format_rule_numbers (matching_rules K (some service) pods request item) in
        diagnose
          (add report authz_layer name fail (
            concat (
              codes "AuthorizationPolicy "
              ∷ name
              ∷ codes " denies requests to target pods selected by Service "
              ∷ quote service.name
              ∷ codes " via "
              ∷ rule_text
              ∷ codes "."
              ∷ [])))
          (concat (
            codes "Primary issue: Istio AuthorizationPolicy "
            ∷ quote name
            ∷ codes " denies requests from source pod "
            ∷ quote source.name
            ∷ codes " to Service "
            ∷ quote (service_name (some service))
            ∷ codes " via "
            ∷ rule_text
            ∷ codes "."
            ∷ []))

    unfoldable pub default_deny_report : Report → Str → Report
    unfolding add diagnose quote concat service_name
    default_deny_report report text =
        diagnose
          (add report authz_layer (codes "allow policies") fail (
            concat (
              codes "Target pods selected by Service "
              ∷ quote service.name
              ∷ codes
                  " are selected by Istio ALLOW AuthorizationPolicy object(s), but none match this source/request. Policies: "
              ∷ text
              ∷ codes "."
              ∷ [])))
          (concat (
            codes
              "Primary issue: Target workload is selected by Istio ALLOW AuthorizationPolicy object(s), but none match source pod "
            ∷ quote source.name
            ∷ codes " for Service "
            ∷ quote (service_name (some service))
            ∷ codes ", so Envoy denies the request. Policies: "
            ∷ text
            ∷ codes "."
            ∷ []))

    unfoldable pub risky_report : Report → List Str → Report
    unfolding add diagnose concat join
    risky_report report rules =
        let text = join rules (codes ", ") in
        diagnose
          (add report authz_layer (codes "authorization policies") fail (
            concat (
              codes
                "Envoy returned RBAC access denied and selected DENY AuthorizationPolicy rule(s) "
              ∷ text
              ∷ codes " use HTTP match fields without an explicit port constraint."
              ∷ [])))
          (concat (
            codes "Primary issue: Istio DENY AuthorizationPolicy rule(s) "
            ∷ text
            ∷ codes
                " use HTTP-only match fields without an explicit port constraint. Istio can apply those DENY rules more broadly than expected when HTTP attributes are unavailable; add operation.ports or a destination.port condition to bound the rule."
            ∷ []))

    unfoldable pub custom_report : Report → List Str → Report
    unfolding add diagnose concat join
    custom_report report policies =
        let text = join policies (codes ", ") in
        diagnose
          (add report authz_layer (codes "custom authorization") warn (
            concat (
              codes "Request matches Istio CUSTOM AuthorizationPolicy object(s) "
              ∷ text
              ∷ codes
                  ". CUSTOM policies delegate authorization to external provider(s), which KubeNetMods does not evaluate."
              ∷ [])))
          (concat (
            codes
              "Primary issue candidate: Request matches Istio CUSTOM AuthorizationPolicy object(s) "
            ∷ text
            ∷ codes
                ", which delegate authorization to external provider(s). KubeNetMods does not evaluate external auth providers; check the provider logs/config."
            ∷ []))

    unfoldable pub unknown_report : Report → Report
    unfolding add diagnose concat quote service_name
    unknown_report report =
        diagnose
          (add report authz_layer (codes "authorization policies") warn (
            codes
              "Envoy returned RBAC access denied, but no matching DENY AuthorizationPolicy was identified by static inspection."))
          (concat (
            codes "Primary issue: Envoy denied the request to Service "
            ∷ quote (service_name (some service))
            ∷ codes
                " with RBAC: access denied, but KubeNetMods could not identify the exact AuthorizationPolicy."
            ∷ []))

    -- The steps after the JWT step, in their order.
    unfoldable pub last_steps : Report → Option Str → List Str → List Str → Report
    unfolding default_deny_report risky_report custom_report unknown_report
    last_steps report (some text) risky matching_custom = default_deny_report report text
    last_steps report none (r ∷ rs) matching_custom = risky_report report (r ∷ rs)
    last_steps report none [] (c ∷ cs) = custom_report report (c ∷ cs)
    last_steps report none [] [] = unknown_report report

    unfoldable pub after_jwt : Report → List AuthorizationPolicy → Request → Report
    unfolding last_steps istio_allow_default_deny risky_istio_deny_http_rules
        matching_istio_authorization_policies
    after_jwt report policies request =
        last_steps report (istio_allow_default_deny K (some service) pods policies request)
          (risky_istio_deny_http_rules K (some service) pods policies)
          (matching_istio_authorization_policies K (some service) pods policies custom request)

    unfoldable pub jwt_step : Mesh → Report → List AuthorizationPolicy → Report × Bool
    unfolding istio_authorization_uses_jwt inspect_istio_request_authentication
    jwt_step mesh report policies =
        if istio_authorization_uses_jwt K (some service) pods policies
        then inspect_istio_request_authentication mesh report (some service) pods warn
        else (report, false)

    -- The explanation that the enforced policies give.
    unfoldable pub explain_denial : Mesh → Report → List AuthorizationPolicy → Request → Report
    unfolding denied_report jwt_step after_jwt istio_authorization_rule_numbers scope_selects_target
    explain_denial mesh report policies request = elim (find (denies request) policies) [
      | some item ↦ denied_report report request item
      | none ↦ unless_done (jwt_step mesh report policies) (λ r. after_jwt r policies request)
    ]

    authz_listed :
        Mesh → Report → Option Request → Listing (Option AuthorizationPolicy) → Option Report
    unfolding explain_denial enforced_istio_authorization_policies add_istio_list_warning
    authz_listed mesh report request listing =
        let policies = enforced_istio_authorization_policies listing.found in
        elim listing.error [
          | none ↦ with_request request (explain_denial mesh report policies)
          | some error ↦
              let warned =
                add_istio_list_warning report authz_layer (codes "authorization policies") error in
              if is_empty listing.found
              then some warned
              else with_request request (explain_denial mesh warned policies)
        ]

    -- `none` is the panic of newIstioHTTPRequest. The callers give a Service and a source.
    unfoldable pub inspect_istio_authorization_policy :
        Mesh → Urls → ServiceOptions → Str → Report → Option Report
    unfolding authz_listed new_request list_istio_policies istio_target_policy_namespaces
    inspect_istio_authorization_policy mesh urls opts raw_url report =
        if not mesh.connected
        then some report
        else authz_listed mesh report (new_request urls opts (some service) (some source) raw_url) (
            list_istio_policies mesh.policies
              (istio_target_policy_namespaces mesh.root_namespace opts.namespace))
