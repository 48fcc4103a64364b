-- ===== src/Istio/Authz/Laws.antt =====
-- The order in which a denial is explained (internal/check/istio_authz.go, istio_jwt.go).
use kube_net_mods.Prelude.{
  Bool, true, false, not, ◌≡◌, ◌≢◌, refl, sym, ap, ◌∙◌, ◌↔◌, inl, inr, List, [], ◌∷◌, ◌++◌, Option,
  none, some, Str, is_empty, any, find, find-some, find-none, any_iff, Exists, Each, is_some,
  Bool-cases, Option-cases, List-cases, subst, none_of_any, cons_ne,
}
use kube_net_mods.Model.{Report, Status}
use kube_net_mods.Cluster.{Pod, Service, Selectors}
use kube_net_mods.Istio.Request.{Request}
use kube_net_mods.Istio.Client.{Listing, list_istio_policies, istio_target_policy_namespaces}
use kube_net_mods.Istio.Policies.{
  AuthorizationPolicy, RequestAuthentication, allow, custom, applies, hits,
  matching_istio_authorization_policies, istio_allow_default_deny, risky_istio_deny_http_rules,
}
use kube_net_mods.Istio.Policies.Laws.{istio_allow_default_deny_iff}
use kube_net_mods.Istio.Authz.{
  Mesh, denies, denied_report, default_deny_report, risky_report, custom_report, unknown_report,
  after_jwt, last_steps, unless_done, jwt_step, explain_denial,
  inspect_istio_request_authentication, summaries, request_authentication_selects_target,
  jwt_verdict, jwt_listed,
}

unless_done-true :
    (step : Report × Bool) (next : Report → Report) → step.1 ≡ true → unless_done step next ≡ step.0
unless_done-true (r, b) next h = rw h refl

unless_done-false :
    (step : Report × Bool) (next : Report → Report)
    → step.1 ≡ false
    → unless_done step next ≡ next step.0
unless_done-false (r, b) next h = rw h refl

module _ (K : Selectors) (service : Service) (pods : List Pod) (source : Pod) where
  abbrev NoDeny : List AuthorizationPolicy → Request → Type 0
  NoDeny policies request = Each (λ p. denies K service pods source request p ≡ false) policies

  -- What the mesh's authorization says of a request that no DENY policy matches: some ALLOW policy
  -- applies and none that applies matches.
  abbrev pub DefaultDeny : List AuthorizationPolicy → Request → Type 0
  DefaultDeny policies request =
      Exists (λ p. applies K (some service) pods allow p ≡ true) policies
      × Each
          (λ p.
            applies K (some service) pods allow p ≡ true
            → hits K (some service) pods request p ≡ false)
          policies

  module _ (mesh : Mesh) (policies : List AuthorizationPolicy) (request : Request)
      (report : Report) where
    abbrev jwt : Report × Bool
    jwt = jwt_step K service pods source mesh report policies

    abbrev risky : List Str
    risky = risky_istio_deny_http_rules K (some service) pods policies

    abbrev delegated : List Str
    delegated = matching_istio_authorization_policies K (some service) pods policies custom request

    -- The explanation `out` is the first in this order whose condition holds: the first policy of the
    -- list that denies, the request authentications, the default deny, the rules without a port, the
    -- custom policies, and that nothing was found.
    pub data Explained (out : Report) : Type 0 where
      by_deny :
          (before after : List AuthorizationPolicy) (item : AuthorizationPolicy)
          → policies ≡ before ++ (item ∷ after)
          → any (denies K service pods source request) before ≡ false
          → denies K service pods source request item ≡ true
          → out ≡ denied_report K service pods source report request item
          → Explained out
      by_jwt : NoDeny policies request → jwt.1 ≡ true → out ≡ jwt.0 → Explained out
      by_default_deny :
          (text : Str)
          → NoDeny policies request
          → jwt.1 ≡ false
          → DefaultDeny policies request
          → out ≡ default_deny_report K service pods source jwt.0 text
          → Explained out
      by_risk :
          NoDeny policies request
          → jwt.1 ≡ false
          → (¬ DefaultDeny policies request)
          → risky ≢ []
          → out ≡ risky_report K service pods source jwt.0 risky
          → Explained out
      by_custom :
          NoDeny policies request
          → jwt.1 ≡ false
          → (¬ DefaultDeny policies request)
          → risky ≡ []
          → delegated ≢ []
          → out ≡ custom_report K service pods source jwt.0 delegated
          → Explained out
      unexplained :
          NoDeny policies request
          → jwt.1 ≡ false
          → (¬ DefaultDeny policies request)
          → risky ≡ []
          → delegated ≡ []
          → out ≡ unknown_report K service pods source jwt.0
          → Explained out

    late :
        NoDeny policies request
        → jwt.1 ≡ false
        → Explained (after_jwt K service pods source jwt.0 policies request)
    unfolding after_jwt
    late calm quiet =
        elim (Option-cases (istio_allow_default_deny K (some service) pods policies request)) [
          | inr (text, e) ↦
              by_default_deny text calm quiet
                ((istio_allow_default_deny_iff K (some service) pods policies request).0
                  (ap is_some e))
                (rw (e, after_jwt, last_steps) refl)
          | inl e ↦
              let admitted : ¬ DefaultDeny policies request = λ d.
                cc (e, (istio_allow_default_deny_iff K (some service) pods policies request).1 d) in
              elim (List-cases risky) [
                | inr (r, rs, f) ↦
                    by_risk calm quiet admitted (λ z. cons_ne (sym f ∙ z))
                      (rw (e, f, after_jwt, last_steps) refl)
                | inl f ↦ elim (List-cases delegated) [
                  | inr (d, ds, g) ↦
                      by_custom calm quiet admitted f (λ z. cons_ne (sym g ∙ z))
                        (rw (e, f, g, after_jwt, last_steps) refl)
                  | inl g ↦
                      unexplained calm quiet admitted f g (rw (e, f, g, after_jwt, last_steps) refl)
                ]
              ]
        ]

    -- Whatever policies are enforced, the explanation of a denial is the first that applies of: a DENY
    -- policy that applies to the target and matches the request (the first of the list), the request
    -- authentications that select the target when a policy asks for a JWT, the default deny of ALLOW
    -- policies none of which matches, the DENY rules with HTTP attributes and no port, the CUSTOM
    -- policies that match, and that nothing was found.
    pub explain_denial-Explained :
        Explained (explain_denial K service pods source mesh report policies request)
    unfolding explain_denial
    explain_denial-Explained =
        elim (Option-cases (find (denies K service pods source request) policies)) [
          | inr (item, e) ↦
              let (before, after, split, hit, miss) =
                find-some (denies K service pods source request) policies e in
              by_deny before after item split miss hit (rw (e, explain_denial) refl)
          | inl e ↦
              let calm : NoDeny policies request =
                none_of_any _ policies ((find-none _ policies).0 e) in
              elim (Bool-cases jwt.1) [
                | inl t ↦ by_jwt calm t (
                    rw (e, explain_denial)
                      (unless_done-true _ (λ r. after_jwt K service pods source r policies request)
                        t))
                | inr f ↦
                    subst Explained
                      (sym (
                        rw (e, explain_denial)
                          (unless_done-false _
                            (λ r. after_jwt K service pods source r policies request) f)))
                      (late calm f)
              ]
        ]

module _ (K : Selectors) where
  summaries-any :
      (service : Option Service) (pods : List Pod) (found : List (Option RequestAuthentication))
      → not (is_empty (summaries K service pods found))
        ≡ any (λ item. request_authentication_selects_target K item service pods) found
  unfolding summaries request_authentication_selects_target
  summaries-any service pods [] = refl
  summaries-any service pods (none ∷ found) = summaries-any service pods found
  summaries-any service pods (some item ∷ found) =
      elim (Bool-cases (request_authentication_selects_target K (some item) service pods)) [
        | inl e ↦ rw e refl
        | inr e ↦ rw e (summaries-any service pods found)
      ]

  jwt_verdict_done :
      (report : Report) (service : Service) (status : Status) (matches : List Str)
      → (jwt_verdict K report service status matches).1 ≡ not (is_empty matches)
  unfolding jwt_verdict
  jwt_verdict_done report service status [] = refl
  jwt_verdict_done report service status (m ∷ ms) = refl

  jwt_listed_done :
      (report : Report) (service : Service) (pods : List Pod) (status : Status)
      (listing : Listing (Option RequestAuthentication))
      → (jwt_listed K report service pods status listing).1
        ≡ any
            (λ item. request_authentication_selects_target K item (some service) pods)
            listing.found
  unfolding jwt_listed
  jwt_listed_done report service pods status listing = elim (Option-cases listing.error) [
    | inl e ↦
        rw (e, jwt_listed)
          (jwt_verdict_done report service status _
            ∙ summaries-any (some service) pods listing.found)
    | inr (m, e) ↦ elim (List-cases listing.found) [
      | inl f ↦ rw (e, f, jwt_listed) refl
      | inr (x, xs, f) ↦
          rw (e, f, jwt_listed)
            (jwt_verdict_done _ service status _ ∙ summaries-any (some service) pods (x ∷ xs))
    ]
  ]

  -- With a client, the JWT step ends the explanation exactly when one of the listed request
  -- authentications selects the target, whatever error the listing has.
  pub inspect_istio_request_authentication_iff :
      (mesh : Mesh) (report : Report) (service : Service) (pods : List Pod) (status : Status)
      → mesh.connected ≡ true
      → ((inspect_istio_request_authentication K mesh report (some service) pods status).1 ≡ true)
        ↔ Exists
            (λ item. request_authentication_selects_target K item (some service) pods ≡ true)
            (list_istio_policies mesh.authentications
              (istio_target_policy_namespaces mesh.root_namespace service.namespace)).found
  unfolding inspect_istio_request_authentication
  inspect_istio_request_authentication_iff mesh report service pods status on =
      let listing =
        list_istio_policies mesh.authentications
          (istio_target_policy_namespaces mesh.root_namespace service.namespace) in
      let same : (inspect_istio_request_authentication K mesh report (some service) pods status).1
          ≡ any (λ item. request_authentication_selects_target K item (some service) pods)
              listing.found =
        rw (on, inspect_istio_request_authentication)
          (jwt_listed_done report service pods status listing) in
      let (to, from) =
        any_iff (λ item. request_authentication_selects_target K item (some service) pods)
          listing.found in
      (λ h. to (sym same ∙ h), λ x. same ∙ from x)
