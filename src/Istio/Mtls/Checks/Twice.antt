-- ===== src/Istio/Mtls/Checks/Twice.antt =====
-- inspectIstioMTLSReset, run again on the report that it returned (internal/check/istio_mtls.go).
use kube_net_mods.Prelude.{
  Bool, true, false, not, ◌||◌, ◌&&◌, ◌≡◌, refl, ◌∙◌, inl, inr, List, [], ◌∷◌, Str, str_eq_refl,
  str_eq, any-append, Bool-cases, if◌then◌else◌, ℤ, arith,
}
use kube_net_mods.Model.{Report, Result, fail, add_categorized, add, diagnose, diagnosed, entry}
use kube_net_mods.Cluster.{Pod, Service, Selectors}
use kube_net_mods.Runtime.Probe.{HttpResult}
use kube_net_mods.Istio.Sidecar.{pod_has_istio_sidecar}
use kube_net_mods.Istio.Mtls.{EffectiveMode, is_strict}
use kube_net_mods.Istio.Mtls.Checks.{
  Peers, mode_for, mtls_layer, once, strict_reset, report_has_result,
  runtime_looks_like_connection_reset, inspect_istio_mtls_reset,
}

abbrev is_its : Str → Result → Bool
is_its check r = str_eq r.layer mtls_layer && str_eq r.check check

-- A step that does nothing under two guards can be repeated where its body can.
abbrev guarded : Bool → Bool → (Report → Report × Bool) → Report → Report × Bool
guarded a b f r = if a then (r, false) else if b then (r, false) else f r

guarded_twice :
    (a b : Bool) (f : Report → Report × Bool) (r : Report)
    → f (f r).0 ≡ f r
    → guarded a b f (guarded a b f r).0 ≡ guarded a b f r
guarded_twice true b f r h = refl
guarded_twice false true f r h = refl
guarded_twice false false f r h = h

module _ (K : Selectors) (peers : Peers) (service : Service) (pods : List Pod) (source : Pod) where
  added :
      (s : Report) (check message told : Str)
      → report_has_result (diagnose (add s mtls_layer check fail message) told) mtls_layer check
        ≡ true
  unfolding report_has_result diagnose add add_categorized
  added s check message told =
      let there =
        any-append (is_its check) s.results (entry mtls_layer check fail [] message ∷ [])
        ∙ ground (arith, str_eq_refl check, str_eq_refl mtls_layer) in
      elim (Bool-cases (diagnosed s.diagnoses told)) [
        | inl e ↦ rw (e, diagnose) there
        | inr e ↦ rw (e, diagnose) there
      ]

  once_twice :
      (s : Report) (check message told : Str)
      → once K peers service pods source
          (once K peers service pods source s check message told).0
          check
          message
          told
        ≡ once K peers service pods source s check message told
  unfolding once
  once_twice s check message told = elim (Bool-cases (report_has_result s mtls_layer check)) [
    | inl h ↦ rw (h, once) (rw h refl)
    | inr h ↦ rw (h, added s check message told, once) refl
  ]

  strict_twice :
      (policy : EffectiveMode) (s : Report)
      → strict_reset K peers service pods source policy
          (strict_reset K peers service pods source policy s).0
        ≡ strict_reset K peers service pods source policy s
  unfolding strict_reset
  strict_twice policy s = once_twice s _ _ _

  -- A second inspection of the same failure leaves the report as the first left it, and explains the
  -- failure exactly when the first did.
  pub inspect_istio_mtls_reset_twice :
      (service_port : ℤ) (answer : HttpResult) (report : Report)
      → inspect_istio_mtls_reset K peers service pods source service_port answer
          (inspect_istio_mtls_reset K peers service pods source service_port answer report).0
        ≡ inspect_istio_mtls_reset K peers service pods source service_port answer report
  unfolding inspect_istio_mtls_reset
  inspect_istio_mtls_reset_twice service_port answer report =
      guarded_twice
        (not peers.connected
          || not (runtime_looks_like_connection_reset answer)
          || pod_has_istio_sidecar source)
        (not (is_strict (mode_for K peers service pods source service_port).mode))
        (strict_reset K peers service pods source
          (mode_for K peers service pods source service_port))
        report (strict_twice (mode_for K peers service pods source service_port) report)
