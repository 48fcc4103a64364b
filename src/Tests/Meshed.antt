-- ===== src/Tests/Meshed.antt =====
-- A mesh that sends a share of the requests for "web" to a subset that no DestinationRule has, and a shell
-- whose curl is answered by Envoy.
use kube_net_mods.Prelude.{
  true, List, [], ◌∷◌, Option, none, some, Str, codes, pos, str_eq, has_prefix, if◌then◌else◌,
}
use kube_net_mods.Istio.Request.{Request}
use kube_net_mods.Istio.Client.{Answer, items, not_found, failed}
use kube_net_mods.Istio.Config.{DestinationRule, VirtualService}
use kube_net_mods.Istio.Mtls.{PeerAuthentication, strict}
use kube_net_mods.Istio.Signal.{Environment}
use kube_net_mods.Runtime.Exec.{Exec}
use kube_net_mods.Runtime.Probe.{ExecTarget}
use kube_net_mods.Tests.Data.{label_sets, literal_regexps, plain_urls, integers, app, client}

abbrev pub labelled : Str → VirtualService integers
labelled name = record {
  name = codes "web";
  namespace = codes "prod";
  export_to = [];
  gateways = [];
  hosts = codes "web" ∷ [];
  http =
      record {
        name = codes "main";
        matches = [];
        route =
            record { host = codes "web"; subset = codes "v1"; weight = pos 90 }
            ∷ record { host = codes "web"; subset = name; weight = pos 10 }
            ∷ [];
        direct_response = none;
        redirect = none;
        fault = none;
      }
      ∷ [];
}

abbrev pub web_rule : DestinationRule
web_rule = record {
  name = codes "web";
  namespace = codes "prod";
  export_to = [];
  host = codes "web";
  subsets = record { name = codes "v1"; labels = app (codes "web"); policy = none } ∷ [];
  policy = none;
}

abbrev pub in_prod : {A : Type 0} → A → Str → Answer (Option A)
in_prod item namespace =
    if str_eq namespace (codes "prod") then items (some item ∷ []) else items []

abbrev pub strict_web : PeerAuthentication
strict_web = record {
  name = codes "default";
  namespace = codes "prod";
  selector = [];
  mode = strict;
  port_level = [];
}

abbrev pub environment : Environment
environment = record {
  floats = integers;
  fixed_text = λ n. codes "n";
  duration_text = λ n. codes "n";
  selectors = label_sets;
  regexps = literal_regexps;
  urls = plain_urls;
  connected = true;
  root_namespace = codes "istio-system";
  policies = λ namespace. not_found;
  authentications = λ namespace. failed (codes "forbidden");
  peer_authentications = in_prod strict_web;
  virtual_services = in_prod (labelled (codes "v2"));
  destination_rules = in_prod web_rule;
  sidecars = λ namespace. not_found;
}

-- curl is answered by Envoy, and resolv.conf cannot be read.
abbrev pub envoy : Exec
envoy command =
    if has_prefix command (codes "cat")
    then record { stdout = []; stderr = codes "denied"; error = some (codes "exit 1") }
    else record {
      stdout = codes "server: envoy\nno healthy upstream\nHTTP_STATUS=503";
      stderr = [];
      error = none;
    }

abbrev pub shell : ExecTarget
shell = record { pod = client; container = codes "main"; kind = codes "source pod" }

abbrev pub asked : Request
asked = record {
  path = codes "/";
  scheme = codes "http";
  method = codes "GET";
  port = pos 80;
  port_text = codes "80";
  authority_hosts =
      codes "web.prod.svc.cluster.local"
      ∷ codes "web.prod.svc"
      ∷ codes "web.prod"
      ∷ codes "web"
      ∷ [];
  query_params = [];
  headers = [];
  source_namespace = codes "shop";
  source_labels = app (codes "client");
  source_service_account = codes "buyer";
  source_principals = codes "cluster.local/ns/shop/sa/buyer" ∷ [];
  request_principals = [];
}

abbrev pub seen : List (VirtualService integers)
seen = labelled (codes "v2") ∷ []

abbrev pub root_url : Str
root_url = codes "http://web.prod.svc.cluster.local:80/"
