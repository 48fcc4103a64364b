-- ===== src/Istio/Authz/Writing.antt =====
-- The writes of the explanation of a denial (internal/check/istio_authz.go, istio_jwt.go).
use kube_net_mods.Prelude.{
  Bool, not, false, ◌≢◌, refl, inl, inr, List, [], ◌∷◌, Option, none, some, Str, Option-cases,
  Bool-cases, is_empty, find,
}
use kube_net_mods.Model.{Report, Status, warn, fail}
use kube_net_mods.Model.Laws.{Writes}
use kube_net_mods.Model.Steps.{add-Writes, told-Writes, if-Writes, pair-Writes, Ends, if-Ends}
use kube_net_mods.Cluster.{Pod, Service, Selectors}
use kube_net_mods.Istio.Request.{Urls, ServiceOptions, Request, new_request}
use kube_net_mods.Istio.Client.{
  Listing, list_istio_policies, istio_target_policy_namespaces, add_istio_list_warning,
}
use kube_net_mods.Istio.Policies.{
  AuthorizationPolicy, RequestAuthentication, istio_authorization_uses_jwt,
  enforced_istio_authorization_policies,
}
use kube_net_mods.Istio.Authz.{
  Mesh, with_request, unless_done, denies, jwt_verdict, jwt_listed,
  inspect_istio_request_authentication, denied_report, default_deny_report, risky_report,
  custom_report, unknown_report, last_steps, after_jwt, jwt_step, explain_denial, authz_listed,
  inspect_istio_authorization_policy,
}

pub list_warning-Writes :
    {r s : Report} (layer check error : Str)
    → Writes r s
    → Writes r (add_istio_list_warning s layer check error)
unfolding add_istio_list_warning
list_warning-Writes layer check error w = add-Writes layer check warn _ w

with_request-Ends :
    {r : Report} (request : Option Request) (explain : Request → Report)
    → request ≢ none
    → ((q : Request) → Writes r (explain q))
    → Ends (λ s. s) r (with_request request explain)
with_request-Ends none explain given w = given refl
with_request-Ends (some q) explain given w = w q

unless_done-Writes :
    {r : Report} (step : Report × Bool) (next : Report → Report)
    → Writes r step.0
    → ((s : Report) → Writes r s → Writes r (next s))
    → Writes r (unless_done step next)
unless_done-Writes (s, done) next w f = if-Writes done w (f s w)

module _ (K : Selectors) (service : Service) (pods : List Pod) where
  jwt_verdict-Writes :
      {r s : Report} (status : Status) (names : List Str)
      → Writes r s
      → Writes r (jwt_verdict K s service status names).0
  unfolding jwt_verdict
  jwt_verdict-Writes status [] w = w
  jwt_verdict-Writes status (n ∷ names) w = told-Writes _ _ status _ _ w

  jwt_listed-Writes :
      {r s : Report} (status : Status) (listing : Listing (Option RequestAuthentication))
      → Writes r s
      → Writes r (jwt_listed K s service pods status listing).0
  unfolding jwt_listed
  jwt_listed-Writes status listing w = elim (Option-cases listing.error) [
    | inl e ↦ rw (e, jwt_listed) (jwt_verdict-Writes status _ w)
    | inr (error, e) ↦
        let warned = list_warning-Writes _ _ error w in
        rw (e, jwt_listed)
          (pair-Writes (is_empty listing.found) _ _ warned (jwt_verdict-Writes status _ warned))
  ]

  pub authentication-Writes :
      {r s : Report} (mesh : Mesh) (status : Status)
      → Writes r s
      → Writes r (inspect_istio_request_authentication K mesh s (some service) pods status).0
  unfolding inspect_istio_request_authentication
  authentication-Writes {r} {s} mesh status w = elim (Bool-cases mesh.connected) [
    | inl e ↦
        rw (e, inspect_istio_request_authentication)
          (jwt_listed-Writes status
            (list_istio_policies mesh.authentications
              (istio_target_policy_namespaces mesh.root_namespace service.namespace))
            w)
    | inr e ↦ rw (e, inspect_istio_request_authentication) w
  ]

  module _ (source : Pod) where
    last_steps-Writes :
        {r s : Report} (text : Option Str) (risky matching : List Str)
        → Writes r s
        → Writes r (last_steps K service pods source s text risky matching)
    unfolding last_steps default_deny_report risky_report custom_report unknown_report
    last_steps-Writes (some text) risky matching w = told-Writes _ _ fail _ _ w
    last_steps-Writes none (x ∷ xs) matching w = told-Writes _ _ fail _ _ w
    last_steps-Writes none [] (c ∷ cs) w = told-Writes _ _ warn _ _ w
    last_steps-Writes none [] [] w = told-Writes _ _ warn _ _ w

    jwt_step-Writes :
        {r s : Report} (mesh : Mesh) (policies : List AuthorizationPolicy)
        → Writes r s
        → Writes r (jwt_step K service pods source mesh s policies).0
    unfolding jwt_step
    jwt_step-Writes {s} mesh policies w =
        pair-Writes (istio_authorization_uses_jwt K (some service) pods policies)
          (inspect_istio_request_authentication K mesh s (some service) pods warn) (s, false)
          (authentication-Writes mesh warn w) w

    explain_denial-Writes :
        {r s : Report} (mesh : Mesh) (policies : List AuthorizationPolicy) (request : Request)
        → Writes r s
        → Writes r (explain_denial K service pods source mesh s policies request)
    unfolding explain_denial after_jwt denied_report
    explain_denial-Writes {s} mesh policies request w =
        elim (Option-cases (find (denies K service pods source request) policies)) [
          | inl e ↦
              rw (e, explain_denial)
                (unless_done-Writes (jwt_step K service pods source mesh s policies)
                  (λ t. after_jwt K service pods source t policies request)
                  (jwt_step-Writes mesh policies w) (λ t v. last_steps-Writes _ _ _ v))
          | inr (item, e) ↦ rw (e, explain_denial, denied_report) (told-Writes _ _ fail _ _ w)
        ]

    authz_listed-Ends :
        {r s : Report} (mesh : Mesh) (request : Option Request)
        (listing : Listing (Option AuthorizationPolicy))
        → request ≢ none
        → Writes r s
        → Ends (λ t. t) r (authz_listed K service pods source mesh s request listing)
    unfolding authz_listed
    authz_listed-Ends mesh request listing given w =
        let policies = enforced_istio_authorization_policies listing.found in
        elim (Option-cases listing.error) [
          | inl e ↦
              rw (e, authz_listed)
                (with_request-Ends request _ given (λ q. explain_denial-Writes mesh policies q w))
          | inr (error, e) ↦
              let warned = list_warning-Writes _ _ error w in
              rw (e, authz_listed)
                (if-Ends _ _ (is_empty listing.found) _ _ warned (
                  with_request-Ends request _ given
                    (λ q. explain_denial-Writes mesh policies q warned)))
        ]

    -- The explanation returns when the request can be built.
    pub denial-Ends :
        {r s : Report} (mesh : Mesh) (urls : Urls) (opts : ServiceOptions) (raw_url : Str)
        → new_request urls opts (some service) (some source) raw_url ≢ none
        → Writes r s
        → Ends
            (λ t. t)
            r
            (inspect_istio_authorization_policy K service pods source mesh urls opts raw_url s)
    unfolding inspect_istio_authorization_policy
    denial-Ends {s} mesh urls opts raw_url given w =
        let listing =
          list_istio_policies mesh.policies
            (istio_target_policy_namespaces mesh.root_namespace opts.namespace) in
        if-Ends _ _ (not mesh.connected) (some s)
          (authz_listed K service pods source mesh s
            (new_request urls opts (some service) (some source) raw_url) listing)
          w (authz_listed-Ends mesh _ listing given w)
