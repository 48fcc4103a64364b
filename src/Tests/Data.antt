-- ===== src/Tests/Data.antt =====
-- The objects of a small cluster: a client pod in "shop" and a server pod in "prod" behind the Service
-- "web", with label selectors that are label sets and address ranges that are prefixes of the text.
use kube_net_mods.Prelude.{
  Bool, [], ◌∷◌, map, none, some, Str, codes, str_eq, has_prefix, is_empty, if◌then◌else◌, all,
  concat, join, pos, ℤ, int_leb, not,
}
use kube_net_mods.Cluster.{
  Labels, lookup, value_or_empty, string_value, Pod, Namespace, Service, ServicePort, Selectors,
  Netip,
}
use kube_net_mods.Model.{Report, Target, new_report}
use kube_net_mods.Calico.Value.{Floats}
use kube_net_mods.Istio.Request.{Urls, ServiceOptions, Request}
use kube_net_mods.Istio.Matching.{Regexps}

abbrev pub has_labels : Labels → Labels → Bool
has_labels wanted labels =
    all (λ entry. str_eq (value_or_empty (lookup entry.0 labels)) entry.1) wanted

abbrev pub label_sets : Selectors
label_sets = record {
  LabelSelector = Labels;
  as_selector = λ wanted. some (has_labels wanted);
  set_matches = has_labels;
  set_string = λ labels.
      join (map (λ entry. concat (entry.0 ∷ codes "=" ∷ entry.1 ∷ [])) labels) (codes ",");
}

abbrev pub text_addresses : Netip
text_addresses = record {
  Prefix = Str;
  Addr = Str;
  parse_prefix = λ s. if is_empty s then none else some s;
  parse_addr = λ s. if is_empty s then none else some s;
  contains = λ range address. has_prefix address range;
}

abbrev pub literal_regexps : Regexps
literal_regexps pattern text = some (str_eq pattern text)

abbrev pub int_less : ℤ → ℤ → Bool
int_less a b = not (int_leb b a)

abbrev pub integers : Floats
integers = record { Float = ℤ; less = int_less; whole = λ n. some n; of_int = λ n. n }

abbrev pub plain_urls : Urls
plain_urls = record { parse_request_uri = λ s. some (s, []); parse = λ s. none }

abbrev pub app : Str → Labels
app name = (codes "app", name) ∷ []

abbrev pub client : Pod
client = record {
  name = codes "client";
  namespace = codes "shop";
  labels = app (codes "client");
  annotations = [];
  pod_ip = codes "10.0.0.9";
  phase = codes "Running";
  conditions = [];
  service_account = codes "buyer";
  containers = [];
}

abbrev pub server : Pod
server = record {
  name = codes "server";
  namespace = codes "prod";
  labels = app (codes "web");
  annotations = [];
  pod_ip = codes "10.0.1.2";
  phase = codes "Running";
  conditions = record { kind = codes "Ready"; status = codes "True" } ∷ [];
  service_account = codes "web";
  containers =
      record {
        name = codes "main";
        ports = record { name = codes "http"; number = pos 8080; protocol = codes "TCP" } ∷ [];
      }
      ∷ [];
}

abbrev pub shop : Namespace
shop = record { name = codes "shop"; labels = [] }

abbrev pub prod : Namespace
prod = record { name = codes "prod"; labels = [] }

abbrev pub http_port : ServicePort
http_port = record {
  name = codes "http";
  port = pos 80;
  target_port = string_value (codes "http");
  protocol = codes "TCP";
  node_port = pos 0;
}

abbrev pub web : Service
web = record {
  name = codes "web";
  namespace = codes "prod";
  kind = codes "ClusterIP";
  cluster_ip = codes "10.96.0.7";
  external_name = [];
  selector = app (codes "web");
  ports = http_port ∷ [];
}

abbrev pub portless : Service
portless = record web { ports = [] }

abbrev pub target : Target
target = record {
  namespace = codes "prod";
  service = codes "web";
  service_port = pos 80;
  source_namespace = codes "shop";
  source_pod = codes "client";
}

abbrev pub empty_report : Report
empty_report = new_report (codes "service") target 0

abbrev pub options : ServiceOptions
options = record {
  namespace = codes "prod";
  service = codes "web";
  service_port = pos 0;
  url_scheme = [];
  url_path = codes "/";
  http_headers = [];
  source_namespace = codes "shop";
  timeout = pos 5;
}

abbrev pub get_root : Request
get_root = record {
  path = codes "/";
  scheme = codes "http";
  method = codes "GET";
  port = pos 80;
  port_text = codes "80";
  authority_hosts = codes "web" ∷ [];
  query_params = [];
  headers = (codes "x-user", codes "ann") ∷ (codes "x-team", codes "red") ∷ [];
  source_namespace = codes "shop";
  source_labels = app (codes "client");
  source_service_account = codes "buyer";
  source_principals = codes "cluster.local/ns/shop/sa/buyer" ∷ [];
  request_principals = [];
}
