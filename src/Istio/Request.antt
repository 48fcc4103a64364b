-- ===== src/Istio/Request.antt =====
-- The request that the static Istio checks evaluate (internal/check/istio_matching.go), with the
-- options and the source that it is built from. net/url is an argument.
use kube_net_mods.Prelude.{
  ◌||◌, ◌&&◌, not, List, [], ◌∷◌, ◌++◌, Option, none, some, Str, codes, str_eq, if◌then◌else◌, ℤ,
  pos, int_eq, int_leb, is_pos, is_empty, decimal, to_lower, trim_suffix,
}
use mathlib.Core.Option.{some-injective}
use kube_net_mods.Prelude.{◌≡◌, ◌≢◌, ◌↔◌, refl, ap, ◌∙◌, arith}
use kube_net_mods.Service.Selection.{
  selected, missing, panic, select_service_port, select_service_port_panics_iff,
}
use kube_net_mods.Cluster.{Labels, Pod, Service, ServicePort, int_value, string_value}

-- check.ServiceOptions; the timeout in whole seconds
pub record ServiceOptions : Type 0 where
  pub namespace : Str
  pub service : Str
  pub service_port : ℤ
  pub url_scheme : Str
  pub url_path : Str
  pub http_headers : Labels
  pub source_namespace : Str
  pub timeout : ℤ

-- url.ParseRequestURI, with its path and the values of its query, and url.Parse, with its host name
-- and port.
pub record Urls : Type 0 where
  pub parse_request_uri : Str → Option (Str × List (Str × List Str))
  pub parse : Str → Option (Str × Str)

pub record Request : Type 0 where
  pub path : Str
  pub scheme : Str
  pub method : Str
  pub port : ℤ
  pub port_text : Str
  pub authority_hosts : List Str
  pub query_params : Labels
  pub headers : Labels
  pub source_namespace : Str
  pub source_labels : Labels
  pub source_service_account : Str
  pub source_principals : List Str
  pub request_principals : List Str

abbrev or_default : Str → Str → Str
or_default s default = if is_empty s then default else s

-- A Go map with one entry set: the entry of the key is replaced.
unfoldable pub set_entry : Str → Str → Labels → Labels
unfolding str_eq
set_entry key value [] = (key, value) ∷ []
set_entry key value ((k, v) ∷ entries) =
    let later = (k, v) ∷ set_entry key value entries in
    if str_eq k key then (key, value) ∷ entries else later

-- Entries set one after another, under lowered keys.
set_lowered : Labels → Labels → Labels
unfolding set_entry to_lower
set_lowered [] out = out
set_lowered ((key, value) ∷ entries) out = set_lowered entries (set_entry (to_lower key) value out)

first_values : List (Str × List Str) → Labels
first_values [] = []
first_values ((key, []) ∷ entries) = first_values entries
first_values ((key, value ∷ values) ∷ entries) = (key, value) ∷ first_values entries

-- uint32PortFromInt32, whose error result is the number 0
unfoldable pub uint32_port_from_int32 : ℤ → ℤ
uint32_port_from_int32 value =
    if int_leb value (pos 0) || not (int_leb value (pos 65535)) then pos 0 else value

-- istioServiceHosts (internal/check/istio_traffic.go)
unfoldable pub istio_service_hosts : Option Service → List Str
unfolding to_lower
istio_service_hosts none = []
istio_service_hosts (some service) =
    let name = to_lower service.name in
    let namespace = to_lower service.namespace in
    (name ++ codes "." ++ namespace ++ codes ".svc.cluster.local")
    ∷ (name ++ codes "." ++ namespace ++ codes ".svc")
    ∷ (name ++ codes "." ++ namespace)
    ∷ name
    ∷ []

-- The path and the query parameters: a path that parses is split, and an empty one is "/".
request_path : Urls → Str → Str × Labels
unfolding set_lowered first_values
request_path urls path = elim (urls.parse_request_uri path) [
  | none ↦ (or_default path (codes "/"), [])
  | some (parsed, query) ↦ (or_default parsed (codes "/"), set_lowered (first_values query) [])
]

first_port_number : Option Service → ℤ
unfolding uint32_port_from_int32
first_port_number none = pos 0
first_port_number (some service) = elim service.ports [
  | [] ↦ pos 0
  | p ∷ ports ↦ uint32_port_from_int32 p.port
]

request_port : ServiceOptions → Option Service → ℤ
unfolding uint32_port_from_int32 first_port_number
request_port opts service =
    let port = uint32_port_from_int32 opts.service_port in
    if int_eq port (pos 0) then first_port_number service else port

target_port_or : ℤ → ServicePort → ℤ
unfolding uint32_port_from_int32
target_port_or port chosen = elim chosen.target_port [
  | int_value v ↦ if is_pos v then uint32_port_from_int32 v else port
  | string_value s ↦ port
]

-- `none` is the panic of selectServicePort.
authz_port : ServiceOptions → Option Service → ℤ → Option ℤ
unfolding select_service_port target_port_or
authz_port opts none port = some port
authz_port opts (some service) port = elim (select_service_port service opts.service_port) [
  | selected p ↦ some (target_port_or port p)
  | missing ↦ some port
  | panic ↦ none
]

authority : Urls → Option Service → Str → List Str
unfolding istio_service_hosts to_lower trim_suffix
authority urls service raw_url = elim (urls.parse raw_url) [
  | none ↦ istio_service_hosts service
  | some (hostname, port) ↦
      if is_empty hostname
      then istio_service_hosts service
      else let host = trim_suffix (to_lower hostname) (codes ".") in
        if is_empty port then host ∷ [] else host ∷ (host ++ codes ":" ++ port) ∷ []
]

source_namespace_of : Str → Option Pod → Str
source_namespace_of given none = given
source_namespace_of given (some pod) = or_default given pod.namespace

service_account_of : Option Pod → Str
service_account_of none = []
service_account_of (some pod) = or_default pod.service_account (codes "default")

labels_of : Option Pod → Labels
labels_of none = []
labels_of (some pod) = pod.labels

principals_of : Str → Str → List Str
principals_of namespace account =
    if not (is_empty namespace) && not (is_empty account)
    then (codes "cluster.local/ns/" ++ namespace ++ codes "/sa/" ++ account) ∷ []
    else []

-- newIstioHTTPRequest; the source is its pod.
unfoldable pub new_request :
    Urls → ServiceOptions → Option Service → Option Pod → Str → Option Request
unfolding request_path request_port authz_port authority source_namespace_of service_account_of
    labels_of principals_of set_lowered to_lower decimal
new_request urls opts service source raw_url =
    let target = request_path urls (or_default opts.url_path (codes "/")) in
    let port = request_port opts service in
    let namespace = source_namespace_of opts.source_namespace source in
    let account = service_account_of source in
    elim (authz_port opts service port) [
      | none ↦ none
      | some authz ↦ some (record {
        path = target.0;
        scheme = to_lower (or_default opts.url_scheme (codes "http"));
        method = codes "GET";
        port = port;
        port_text = decimal authz;
        authority_hosts = authority urls service raw_url;
        query_params = target.1;
        headers = set_lowered opts.http_headers [];
        source_namespace = namespace;
        source_labels = labels_of source;
        source_service_account = account;
        source_principals = principals_of namespace account;
        request_principals = [];
      })
    ]

authz_port_panics :
    (opts : ServiceOptions) (service : Service) (port : ℤ)
    → (authz_port opts (some service) port ≡ none)
      ↔ (select_service_port service opts.service_port ≡ panic)
unfolding authz_port
authz_port_panics opts service port = (λ h. ground arith, λ h. rw (h, authz_port))

authz_port-none : (opts : ServiceOptions) (port : ℤ) → authz_port opts none port ≢ none
unfolding authz_port
authz_port-none opts port h = cc

new_request-none :
    (urls : Urls) (opts : ServiceOptions) (service : Option Service) (source : Option Pod)
    (raw_url : Str)
    → (new_request urls opts service source raw_url ≡ none)
      ↔ (authz_port opts service (request_port opts service) ≡ none)
unfolding new_request
new_request-none urls opts service source raw_url = (λ h. ground arith, λ h. rw (h, new_request))

-- Building a request panics exactly for a Service without ports and no port asked for.
pub new_request_panics_iff :
    (urls : Urls) (opts : ServiceOptions) (service : Option Service) (source : Option Pod)
    (raw_url : Str)
    → (new_request urls opts service source raw_url ≡ none)
      ↔ ((s : Service) × (service ≡ some s) × (opts.service_port ≡ pos 0) × (s.ports ≡ []))
new_request_panics_iff urls opts none source raw_url = (
  λ h. absurd (authz_port-none opts _ ((new_request-none urls opts none source raw_url).0 h)),
  λ (s, e, _, _). cc,
)
new_request_panics_iff urls opts (some service) source raw_url =
    let (to, from) = new_request-none urls opts (some service) source raw_url in
    let (out, back) = authz_port_panics opts service (request_port opts (some service)) in
    let (sel, les) = select_service_port_panics_iff service opts.service_port in
    (
      λ h. let (asked, empty) = sel (out (to h)) in (service, refl, asked, empty),
      λ (s, e, asked, empty).
          from (back (les (asked, ap (λ x. x.ports) (some-injective _ _ e) ∙ empty))),
    )
