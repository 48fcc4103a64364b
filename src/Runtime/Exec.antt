-- ===== src/Runtime/Exec.antt =====
-- The probes of internal/runtime/runtime.go, over a shell in the source pod that is an argument.
use kube_net_mods.Prelude.{
  ℕ, Bool, true, false, ◌&&◌, leb, [], ◌∷◌, ◌++◌, Option, none, some, Str, codes, is_empty,
  has_prefix, drop, trim_space, if◌then◌else◌, ℤ,
}
use kube_net_mods.Cluster.{Labels}
use kube_net_mods.Runtime.Shell.{curl_command, resolve_command}
use kube_net_mods.Runtime.Resolv.{ResolvConf, parse_resolv_conf}
use kube_net_mods.Runtime.Probe.{HttpResult}

-- What ExecShell returns; `none` is a nil error.
pub record Output : Type 0 where
  pub stdout : Str
  pub stderr : Str
  pub error : Option Str

abbrev pub Exec : Type 0
Exec = Str → Output

abbrev with_stderr : Str → Str → Str
with_stderr error stderr = if is_empty stderr then error else error ++ codes ": " ++ stderr

-- A value or the text of an error
pub data Read : Type 0 where
  read : ResolvConf → Read
  unread : Str → Read

unfoldable pub read_resolv_conf : Exec → Read
unfolding parse_resolv_conf
read_resolv_conf exec =
    let out = exec (codes "cat /etc/resolv.conf") in
    elim out.error [
      | none ↦ read (parse_resolv_conf out.stdout)
      | some error ↦ unread (with_stderr error out.stderr)
    ]

-- `none` is a host that resolves.
unfoldable pub resolve_host : Exec → Str → Option Str
unfolding resolve_command
resolve_host exec host =
    let out = exec (resolve_command host) in
    elim out.error [ none ↦ none | some error ↦ some (with_stderr error out.stderr) ]

abbrev is_digit : ℕ → Bool
is_digit c = leb b'0' c && leb c b'9'

three_digits : Str → Option Str
three_digits (a ∷ b ∷ c ∷ s) =
    if is_digit a && is_digit b && is_digit c then some (a ∷ b ∷ c ∷ []) else none
three_digits _ = none

status_at : Str → Option Str
unfolding has_prefix three_digits
status_at s = if has_prefix s (codes "HTTP_STATUS=") then three_digits (drop 12 s) else none

-- The first match of HTTP_STATUS=(\d{3})
unfoldable pub http_status : Str → Str
unfolding status_at
http_status [] = codes "unknown"
http_status (c ∷ s) =
    let later = http_status s in elim (status_at (c ∷ s)) [ some status ↦ status | none ↦ later ]

abbrev or_error : Str → Str → Str
or_error text error = if is_empty text then error else text

unfoldable pub curl_url : Exec → Str → ℤ → Labels → HttpResult
unfolding curl_command http_status trim_space
curl_url exec raw_url seconds headers =
    let out = exec (curl_command raw_url seconds headers) in
    let answer : Option Str → HttpResult = λ error. record {
      url = raw_url;
      ok = (elim error [ none ↦ true | some text ↦ false ]);
      status_code = http_status out.stdout;
      output = out.stdout;
      error = (elim error [ none ↦ [] | some text ↦ or_error (trim_space out.stderr) text ]);
    } in
    answer out.error
