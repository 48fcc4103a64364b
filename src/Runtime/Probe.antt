-- ===== src/Runtime/Probe.antt =====
-- SelectReadyPod and the reading of a failed probe (internal/runtime/runtime.go).
use kube_net_mods.Prelude.{
  Bool, true, false, ◌||◌, ◌&&◌, ◌≡◌, ◌==◌, refl, sym, ap, ◌∙◌, ◌↔◌, ◌⊎◌, inl, inr, List, [], ◌∷◌,
  ◌++◌, Option, none, some, Str, codes, str_eq, is_empty, if◌then◌else◌, Option-cases, concat,
  quote, to_lower, to_lower_idem, contains, any, find, find-some, find-none, Each, none_of_any,
}
use kube_net_mods.Cluster.{Pod}

unfoldable pub pod_ready : Pod → Bool
unfolding str_eq
pod_ready pod =
    any (λ c. str_eq c.kind (codes "Ready") && str_eq c.status (codes "True")) pod.conditions

abbrev pub usable : Pod → Bool
usable pod = str_eq pod.phase (codes "Running") && pod_ready pod

unfoldable pub select_ready_pod : List Pod → Option Pod
unfolding str_eq pod_ready
select_ready_pod pods = find usable pods

pub record ExecTarget : Type 0 where
  pub pod : Pod
  pub container : Str
  pub kind : Str

pub record HttpResult : Type 0 where
  pub url : Str
  pub ok : Bool
  pub status_code : Str
  pub output : Str
  pub error : Str

pub record Classification : Type 0 where
  pub kind : Str
  pub summary : Str
  pub diagnosis : Str

-- The switch of IsRuntimeUnavailableText on the lowered text.
is_lowered : Str → Bool
unfolding contains
is_lowered text =
    contains text (codes "no resolver tool available")
    || (contains text (codes "executable file not found") && contains text (codes "sh"))
    || (contains text (codes "stat sh") && contains text (codes "no such file"))
    || contains text (codes "curl: not found")
    || contains text (codes "curl: command not found")
    || contains text (codes "sh: curl: not found")
    || (contains text (codes "pods/exec") && contains text (codes "forbidden"))
    || (contains text (codes "cannot create resource") && contains text (codes "pods/exec"))
    || (contains text (codes "is forbidden") && contains text (codes "exec"))

unfoldable pub is_runtime_unavailable_text : Str → Bool
unfolding is_lowered to_lower
is_runtime_unavailable_text text = is_lowered (to_lower text)

abbrev as_class : Str → Str → Str → Classification
as_class kind summary diagnosis = record { kind = kind; summary = summary; diagnosis = diagnosis }

abbrev pub unavailable : Classification
unavailable =
    as_class (codes "runtime-unavailable") (codes "runtime probe could not run in the source pod") (
      codes
        "The selected source pod does not have usable exec/runtime tooling for this check. Static Kubernetes/CNI/Istio analysis still ran, but live DNS/curl proof is unavailable.")

abbrev cert_required : Classification
cert_required =
    as_class (codes "tls-client-cert-required")
      (codes "TLS handshake reached the target, but the server required a client certificate")
      (codes
        "Connectivity appears present; validate mTLS/client certificate requirements, protocol mode, and client credentials.")

abbrev cert_invalid : Classification
cert_invalid =
    as_class (codes "tls-certificate-validation")
      (codes "TLS handshake reached the target, but certificate validation failed")
      (codes
        "Connectivity appears present; validate certificate trust, CA bundle, SNI, and TLS settings.")

abbrev tls_mismatch : Classification
tls_mismatch =
    as_class (codes "tls-protocol-mismatch")
      (codes "target was reachable, but TLS/cleartext protocol negotiation failed")
      (codes
        "Connectivity appears present; validate whether this endpoint expects HTTP, HTTPS, gRPC, or another protocol.")

abbrev protocol_mismatch : Classification
protocol_mismatch =
    as_class (codes "application-protocol-mismatch")
      (codes "target was reachable, but the response did not look like normal HTTP")
      (codes
        "Connectivity appears present; validate the application protocol, scheme, path, and whether the endpoint expects gRPC, raw TCP, HTTPS, or a non-HTTP protocol.")

abbrev refused : Classification
refused =
    as_class (codes "connection-refused")
      (codes "target IP and port were reachable, but the connection was refused")
      (codes
        "Check whether the application is listening on the tested port, the Service targetPort, and container listener configuration.")

abbrev dns_failed : Classification
dns_failed = as_class (codes "dns-resolution") (codes "DNS resolution failed") (
    codes
      "Check source pod DNS configuration, CoreDNS/NodeLocalDNS health, search domains, and DNS egress policy.")

abbrev pub unclassified : Classification
unclassified = as_class [] [] []

-- The switch of ClassifyRuntimeHTTPFailure on the lowered text.
classify_text : Str → Classification
unfolding is_runtime_unavailable_text contains
classify_text text =
    let has : Str → Bool = contains text in
    if is_runtime_unavailable_text text
    then unavailable
    else if has (codes "certificate required") || has (codes "alert certificate required")
    then cert_required
    else if has (codes "certificate verify failed")
        || has (codes "unknown ca")
        || has (codes "self signed certificate")
    then cert_invalid
    else if has (codes "wrong version number")
        || has (codes "http request to https")
        || (has (codes "https") && has (codes "plain http"))
    then tls_mismatch
    else if has (codes "received http/0.9 when not allowed")
        || has (codes "unsupported protocol")
        || has (codes "malformed")
        || has (codes "empty reply from server")
    then protocol_mismatch
    else if has (codes "connection refused")
    then refused
    else if has (codes "could not resolve host")
        || has (codes "name or service not known")
        || has (codes "no such host")
    then dns_failed
    else unclassified

unfoldable pub classify_runtime_http_failure : HttpResult → Classification
unfolding classify_text to_lower
classify_runtime_http_failure result =
    classify_text (to_lower (result.error ++ codes " " ++ result.output))

-- What the switch says by its tests, in order.
abbrev chosen : Bool → Bool → Bool → Bool → Bool → Bool → Bool → Classification
chosen a b c d e f g =
    if a
    then unavailable
    else if b
    then cert_required
    else if c
    then cert_invalid
    else if d
    then tls_mismatch
    else if e
    then protocol_mismatch
    else if f
    then refused
    else if g
    then dns_failed
    else unclassified

unfoldable pub probe_label : Classification → Str
unfolding str_eq
probe_label class =
    if str_eq class.kind (codes "tls-client-cert-required")
      || str_eq class.kind (codes "tls-certificate-validation")
      || str_eq class.kind (codes "tls-protocol-mismatch")
    then codes "TLS/protocol"
    else if str_eq class.kind (codes "application-protocol-mismatch")
    then codes "Protocol"
    else codes "HTTP"

-- The kinds for which a connection was made but the protocol did not fit.
abbrev pub is_protocol_kind : Str → Bool
is_protocol_kind kind =
    str_eq kind (codes "tls-client-cert-required")
    || str_eq kind (codes "tls-certificate-validation")
    || str_eq kind (codes "tls-protocol-mismatch")
    || str_eq kind (codes "application-protocol-mismatch")

-- The message of a failed probe: `skipped`, `protocol` or `other`, by the classification.
abbrev by_class : Classification → Str → Str → Str → Str
by_class class skipped protocol other =
    if is_empty class.diagnosis
    then other
    else if str_eq class.kind (codes "runtime-unavailable")
    then skipped
    else if is_protocol_kind class.kind
    then protocol
    else other

abbrev protocol_message : ExecTarget → Str → HttpResult → Classification → Str
protocol_message target raw_url result class = concat (
    probe_label class
    ∷ codes " probe to "
    ∷ raw_url
    ∷ codes " failed from "
    ∷ target.kind
    ∷ codes " "
    ∷ quote target.pod.name
    ∷ codes ". "
    ∷ result.error
    ∷ [])

unfoldable pub runtime_probe_failure_message : ExecTarget → Str → HttpResult → Classification → Str
unfolding probe_label concat quote str_eq
runtime_probe_failure_message target raw_url result class =
    by_class class
      (concat (
        codes "Skipped live probe to "
        ∷ raw_url
        ∷ codes " from "
        ∷ target.kind
        ∷ codes " "
        ∷ quote target.pod.name
        ∷ codes " because runtime exec/tooling is unavailable. "
        ∷ result.error
        ∷ []))
      (protocol_message target raw_url result class)
      (concat (
        target.kind
        ∷ codes " "
        ∷ quote target.pod.name
        ∷ codes " could not reach "
        ∷ raw_url
        ∷ codes ". "
        ∷ result.error
        ∷ []))

unfoldable pub direct_pod_probe_failure_message :
    ExecTarget → Str → HttpResult → Classification → Str
unfolding probe_label concat quote str_eq
direct_pod_probe_failure_message target raw_url result class =
    by_class class
      (concat (
        codes "Skipped live direct pod probe to "
        ∷ raw_url
        ∷ codes " from "
        ∷ target.kind
        ∷ codes " "
        ∷ quote target.pod.name
        ∷ codes " because runtime exec/tooling is unavailable. "
        ∷ result.error
        ∷ []))
      (protocol_message target raw_url result class)
      (concat (
        raw_url
        ∷ codes " failed from "
        ∷ target.kind
        ∷ codes " "
        ∷ quote target.pod.name
        ∷ codes "."
        ∷ []))

abbrev starts_with_r : Str → Bool
starts_with_r [] = false
starts_with_r (c ∷ s) = c == b'r'

no : ¬ (false ≡ true)
no h = cc

chosen_unavailable :
    (a b c d e f g : Bool)
    → ((chosen a b c d e f g).kind ≡ codes "runtime-unavailable") ↔ (a ≡ true)
chosen_unavailable true b c d e f g = (λ _. refl, λ _. refl)
chosen_unavailable false true c d e f g =
    (λ h. absurd (no (ap starts_with_r h)), λ h. absurd (no h))
chosen_unavailable false false true d e f g =
    (λ h. absurd (no (ap starts_with_r h)), λ h. absurd (no h))
chosen_unavailable false false false true e f g =
    (λ h. absurd (no (ap starts_with_r h)), λ h. absurd (no h))
chosen_unavailable false false false false true f g =
    (λ h. absurd (no (ap starts_with_r h)), λ h. absurd (no h))
chosen_unavailable false false false false false true g =
    (λ h. absurd (no (ap starts_with_r h)), λ h. absurd (no h))
chosen_unavailable false false false false false false true =
    (λ h. absurd (no (ap starts_with_r h)), λ h. absurd (no h))
chosen_unavailable false false false false false false false =
    (λ h. absurd (no (ap starts_with_r h)), λ h. absurd (no h))

-- A failed probe counts as one that could not run exactly when its error and output, without regard
-- to case, say that the source pod cannot run it; no other kind takes precedence.
pub classify_unavailable_iff :
    (result : HttpResult)
    → ((classify_runtime_http_failure result).kind ≡ codes "runtime-unavailable")
      ↔ (is_runtime_unavailable_text (result.error ++ codes " " ++ result.output) ≡ true)
unfolding classify_runtime_http_failure classify_text is_runtime_unavailable_text
classify_unavailable_iff result =
    let (to, from) =
      chosen_unavailable
        (is_runtime_unavailable_text (to_lower (result.error ++ codes " " ++ result.output))) _ _ _
        _ _ _ in
    let same = lowered (result.error ++ codes " " ++ result.output) in
    (λ h. sym same ∙ to h, λ h. from (same ∙ h))
  where
    lowered : (s : Str) → is_runtime_unavailable_text (to_lower s) ≡ is_runtime_unavailable_text s
    lowered s = ap is_lowered (to_lower_idem s)

-- The pod that is selected is the first that runs and is ready; when none is, nothing is selected.
pub select_ready_pod_first :
    (pods : List Pod)
    → ((select_ready_pod pods ≡ none) × Each (λ p. usable p ≡ false) pods)
      ⊎ ((pod : Pod) × (before : List Pod) × (after : List Pod) × (select_ready_pod pods ≡ some pod)
          × (pods ≡ before ++ (pod ∷ after))
          × (usable pod ≡ true)
          × Each (λ p. usable p ≡ false) before)
unfolding select_ready_pod
select_ready_pod_first pods = elim (Option-cases (find usable pods)) [
  | inl e ↦ inl (e, none_of_any usable pods ((find-none usable pods).0 e))
  | inr (pod, e) ↦
      let (before, after, split, hit, miss) = find-some usable pods e in
      inr (pod, before, after, e, split, hit, none_of_any usable before miss)
]
