-- ===== src/Tests/Runs.antt =====
-- The laws of what is run in a pod, applied.
use kube_net_mods.Prelude.{◌≡◌, ◌↔◌, false, [], ◌++◌, some, Str, codes, pos, Memᴰ, Exists, is_empty}
use kube_net_mods.Runtime.Shell.{plain, shell_quote, read_word, prefixed, read_word-shell_quote}
use kube_net_mods.Runtime.Urls.{
  build_service_urls, build_service_urls_iff, HostOf, url, normal_path,
}
use kube_net_mods.Runtime.Resolv.{
  parse_resolv_conf, parse_resolv_conf_nameserver_iff, Declares, split_lines,
}
use kube_net_mods.Runtime.Probe.{HttpResult}
use kube_net_mods.Tests.Data.{web}

abbrev hostile : Str
hostile = codes "x'; rm -rf /tmp; echo '"

read_word-shell_quote_example :
    read_word plain (shell_quote hostile ++ codes " >/dev/null")
    ≡ prefixed hostile (read_word plain (codes " >/dev/null"))
read_word-shell_quote_example = read_word-shell_quote hostile (codes " >/dev/null")

build_service_urls_iff_example :
    Memᴰ
      (codes "http://10.96.0.7:80/ready")
      (build_service_urls (some web) (codes "prod") (codes "web") [] (codes "ready") (pos 0))
    ↔ ((host : Str) × HostOf web (codes "prod") (codes "web") host
        × (codes "http://10.96.0.7:80/ready"
            ≡ url (codes "http") host (pos 80) (normal_path (codes "ready"))))
build_service_urls_iff_example =
    build_service_urls_iff web (codes "prod") (codes "web") [] (codes "ready") (pos 0)
      (codes "http://10.96.0.7:80/ready")

abbrev resolv : Str
resolv = codes "# made by kubelet\nnameserver 10.96.0.10\nsearch prod.svc.cluster.local\n"

parse_resolv_conf_nameserver_iff_example :
    Memᴰ (codes "10.96.0.10") (parse_resolv_conf resolv).nameservers ↔ (
      Exists (Declares (codes "10.96.0.10")) (split_lines resolv)
      × (is_empty (codes "10.96.0.10") ≡ false))
parse_resolv_conf_nameserver_iff_example =
    parse_resolv_conf_nameserver_iff resolv (codes "10.96.0.10")

abbrev no_curl : HttpResult
no_curl = record {
  url = codes "http://web/";
  ok = false;
  status_code = codes "unknown";
  output = [];
  error = codes "sh: curl: not found";
}
