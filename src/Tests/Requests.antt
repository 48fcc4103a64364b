-- ===== src/Tests/Requests.antt =====
-- The laws of Istio's patterns, matches and rules, applied to a GET of "/".
use kube_net_mods.Prelude.{
  ◌≡◌, ◌↔◌, true, false, List, [], ◌∷◌, Option, none, some, Str, codes, pos, to_lower,
}
use kube_net_mods.Cluster.{Service}
use kube_net_mods.Istio.Request.{new_request, new_request_panics_iff}
use kube_net_mods.Istio.Patterns.{
  PatternFits, istio_auth_pattern_matches, istio_auth_pattern_matches_iff,
}
use kube_net_mods.Istio.Matching.{
  HttpMatch, StringMatch, exact, prefix, istio_http_match_request_matches,
}
use kube_net_mods.Istio.Matching.Laws.{FitsRequest, istio_http_match_request_matches_iff}
use kube_net_mods.Istio.Rules.{Source, AuthRule, istio_authorization_rule_matches}
use kube_net_mods.Istio.Rules.Laws.{RuleOk, istio_authorization_rule_matches_iff}
use kube_net_mods.Tests.Data.{
  label_sets, literal_regexps, plain_urls, options, client, portless, get_root,
}

istio_auth_pattern_matches_iff_example :
    ((istio_auth_pattern_matches (codes "/api/*") (codes "/api/v1") false ≡ true)
      ↔ PatternFits (codes "/api/*") (codes "/api/v1"))
    × ((istio_auth_pattern_matches (codes "/api/*") (codes "/api/v1") true ≡ true)
        ↔ PatternFits (to_lower (codes "/api/*")) (to_lower (codes "/api/v1")))
istio_auth_pattern_matches_iff_example =
    istio_auth_pattern_matches_iff (codes "/api/*") (codes "/api/v1")

abbrev team_match : HttpMatch
team_match = record {
  uri = some (prefix (codes "/"));
  scheme = none;
  method = some (exact (codes "GET"));
  authority = none;
  port = pos 0;
  source_namespace = codes "shop";
  source_labels = [];
  headers =
      (codes "x-team", some (exact (codes "red")))
      ∷ (codes "x-user", some (prefix (codes "a")))
      ∷ [];
  without_headers = [];
  query_params = [];
  ignore_uri_case = false;
}

istio_http_match_request_matches_iff_example :
    (istio_http_match_request_matches literal_regexps label_sets team_match get_root ≡ true)
    ↔ FitsRequest literal_regexps label_sets team_match get_root
istio_http_match_request_matches_iff_example =
    istio_http_match_request_matches_iff literal_regexps label_sets team_match get_root

abbrev turned : List (Str × Option StringMatch)
turned =
    (codes "x-user", some (prefix (codes "a"))) ∷ (codes "x-team", some (exact (codes "red"))) ∷ []

abbrev anyone : Source
anyone = record {
  namespaces = codes "shop" ∷ [];
  not_namespaces = [];
  service_accounts = [];
  not_service_accounts = [];
  principals = codes "cluster.local/*" ∷ [];
  not_principals = [];
  request_principals = [];
  not_request_principals = [];
}

abbrev shop_rule : AuthRule
shop_rule = record { from = some anyone ∷ []; to = []; when = [] }

istio_authorization_rule_matches_iff_example :
    (istio_authorization_rule_matches shop_rule (codes "prod") get_root ≡ true)
    ↔ RuleOk (codes "prod") get_root shop_rule
istio_authorization_rule_matches_iff_example =
    istio_authorization_rule_matches_iff shop_rule (codes "prod") get_root

new_request_panics_iff_example :
    (new_request plain_urls options (some portless) (some client) (codes "http://web/") ≡ none)
    ↔ ((s : Service) × (some portless ≡ some s) × (options.service_port ≡ pos 0) × (s.ports ≡ []))
new_request_panics_iff_example =
    new_request_panics_iff plain_urls options (some portless) (some client) (codes "http://web/")
