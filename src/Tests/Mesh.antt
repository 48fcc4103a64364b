-- ===== src/Tests/Mesh.antt =====
-- The laws of the explanation of a denial, applied to a mesh with one ALLOW policy that does not admit
-- the client and one DENY policy.
use kube_net_mods.Prelude.{
  ◌≡◌, refl, ◌↔◌, ◌⊎◌, true, false, List, [], ◌∷◌, Option, none, some, Str, codes, Memᴰ, Exists,
  Each, is_some,
}
use kube_net_mods.Model.{warn}
use kube_net_mods.Istio.Client.{
  Answer, items, failed, list_istio_policies, istio_target_policy_namespaces,
  istio_export_to_visible,
}
use kube_net_mods.Istio.Client.Laws.{
  Broken, answered, list_istio_policies_rest, ExportsTo, istio_export_to_visible_iff,
}
use kube_net_mods.Istio.Rules.{Source, Operation, AuthRule}
use kube_net_mods.Istio.Policies.{
  AuthorizationPolicy, RequestAuthentication, Scope, allow, deny, applies, hits,
  scope_selects_target, istio_allow_default_deny, risky_istio_deny_http_rules,
}
use kube_net_mods.Istio.Policies.Laws.{
  Reaches, scope_selects_target_iff, istio_allow_default_deny_iff,
}
use kube_net_mods.Istio.Policies.Risky.{RiskyIn, risky_istio_deny_http_rules_iff}
use kube_net_mods.Istio.Authz.{
  Mesh, explain_denial, inspect_istio_request_authentication, request_authentication_selects_target,
}
use kube_net_mods.Istio.Authz.Laws.{
  Explained, explain_denial-Explained, inspect_istio_request_authentication_iff,
}
use kube_net_mods.Tests.Data.{label_sets, client, server, web, get_root, empty_report, app}

abbrev all_pods : Scope
all_pods = record { target_refs = []; target_ref = none; selector = [] }

abbrev web_pods : Scope
web_pods = record { target_refs = []; target_ref = none; selector = app (codes "web") }

abbrev from_ops : Source
from_ops = record {
  namespaces = codes "ops" ∷ [];
  not_namespaces = [];
  service_accounts = [];
  not_service_accounts = [];
  principals = [];
  not_principals = [];
  request_principals = [];
  not_request_principals = [];
}

abbrev ops_rule : AuthRule
ops_rule = record { from = some from_ops ∷ []; to = []; when = [] }

abbrev allow_ops : AuthorizationPolicy
allow_ops = record {
  name = codes "ops";
  namespace = codes "prod";
  annotations = [];
  scope = web_pods;
  action = allow;
  provider = [];
  rules = some ops_rule ∷ [];
}

abbrev every_rule : AuthRule
every_rule = record { from = []; to = []; when = [] }

abbrev deny_all : AuthorizationPolicy
deny_all = record {
  name = codes "stop";
  namespace = codes "prod";
  annotations = [];
  scope = all_pods;
  action = deny;
  provider = [];
  rules = some every_rule ∷ [];
}

abbrev tokens : RequestAuthentication
tokens = record { name = codes "jwt"; namespace = codes "prod"; scope = web_pods; issuers = [] }

abbrev policy_answer : Str → Answer (Option AuthorizationPolicy)
policy_answer namespace = items (some allow_ops ∷ some deny_all ∷ [])

abbrev token_answer : Str → Answer (Option RequestAuthentication)
token_answer namespace = items (some tokens ∷ [])

abbrev mesh : Mesh
mesh = record {
  connected = true;
  root_namespace = codes "istio-system";
  policies = policy_answer;
  authentications = token_answer;
}

abbrev both : List AuthorizationPolicy
both = allow_ops ∷ deny_all ∷ []

explain_denial-Explained_example :
    Explained label_sets web
      (server ∷ [])
      client
      mesh
      both
      get_root
      empty_report
      (explain_denial label_sets web (server ∷ []) client mesh empty_report both get_root)
explain_denial-Explained_example =
    explain_denial-Explained label_sets web (server ∷ []) client mesh both get_root empty_report

inspect_istio_request_authentication_iff_example :
    ((inspect_istio_request_authentication label_sets mesh empty_report
        (some web)
        (server ∷ [])
        warn).1
      ≡ true)
    ↔ Exists
        (λ item.
          request_authentication_selects_target label_sets item (some web) (server ∷ []) ≡ true)
        (list_istio_policies mesh.authentications
          (istio_target_policy_namespaces mesh.root_namespace web.namespace)).found
inspect_istio_request_authentication_iff_example =
    inspect_istio_request_authentication_iff label_sets mesh empty_report web (server ∷ []) warn
      refl

istio_allow_default_deny_iff_example :
    (is_some
        (istio_allow_default_deny label_sets (some web) (server ∷ []) (allow_ops ∷ []) get_root)
      ≡ true)
    ↔ (Exists
          (λ item. applies label_sets (some web) (server ∷ []) allow item ≡ true)
          (allow_ops ∷ [])
        × Each
            (λ item.
              applies label_sets (some web) (server ∷ []) allow item ≡ true
              → hits label_sets (some web) (server ∷ []) get_root item ≡ false)
            (allow_ops ∷ []))
istio_allow_default_deny_iff_example =
    istio_allow_default_deny_iff label_sets (some web) (server ∷ []) (allow_ops ∷ []) get_root

abbrev post_only : Operation
post_only = record {
  hosts = [];
  not_hosts = [];
  ports = [];
  not_ports = [];
  methods = codes "POST" ∷ [];
  not_methods = [];
  paths = [];
  not_paths = [];
}

abbrev post_rule : AuthRule
post_rule = record { from = []; to = some post_only ∷ []; when = [] }

abbrev deny_posts : AuthorizationPolicy
deny_posts = record deny_all { rules = some every_rule ∷ some post_rule ∷ [] }

risky_istio_deny_http_rules_iff_example :
    Memᴰ
      (codes "prod/stop rule 2")
      (risky_istio_deny_http_rules label_sets (some web) (server ∷ []) (deny_posts ∷ []))
    ↔ Exists
        (RiskyIn label_sets (some web) (server ∷ []) (codes "prod/stop rule 2"))
        (deny_posts ∷ [])
risky_istio_deny_http_rules_iff_example =
    risky_istio_deny_http_rules_iff label_sets (some web) (server ∷ []) (deny_posts ∷ [])
      (codes "prod/stop rule 2")

scope_selects_target_iff_example :
    (scope_selects_target label_sets web_pods (codes "prod") (some web) (server ∷ []) ≡ true)
    ↔ Reaches label_sets (codes "prod") web (server ∷ []) [] none (app (codes "web"))
scope_selects_target_iff_example =
    scope_selects_target_iff label_sets web_pods (codes "prod") web (server ∷ [])

abbrev partly : Str → Answer Str
partly [] = failed (codes "forbidden")
partly (c ∷ s) = items ((c ∷ s) ∷ [])

list_istio_policies_rest_example :
    ((list_istio_policies partly (codes "prod" ∷ [] ∷ [])).found
      ≡ answered partly (codes "prod" ∷ [] ∷ []))
    × (((list_istio_policies partly (codes "prod" ∷ [] ∷ [])).error ≡ none)
        ↔ Each (λ n. ¬ Broken (partly n)) (codes "prod" ∷ [] ∷ []))
list_istio_policies_rest_example = list_istio_policies_rest partly (codes "prod") ([] ∷ []) (λ b. b)

istio_export_to_visible_iff_example :
    (istio_export_to_visible (codes "." ∷ codes "shop" ∷ []) (codes "prod") (codes "shop") ≡ true)
    ↔ ((codes "shop" ≡ [])
        ⊎ ((codes "." ∷ codes "shop" ∷ []) ≡ [])
        ⊎ Exists (ExportsTo (codes "prod") (codes "shop")) (codes "." ∷ codes "shop" ∷ []))
istio_export_to_visible_iff_example =
    istio_export_to_visible_iff (codes "." ∷ codes "shop" ∷ []) (codes "prod") (codes "shop")
