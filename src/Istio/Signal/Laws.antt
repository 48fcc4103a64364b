-- ===== src/Istio/Signal/Laws.antt =====
-- What Envoy's answer must say for each signal (internal/check/istio.go, classifyIstioRuntime).
use kube_net_mods.Prelude.{
  Bool, true, false, and_iff, false_of_not, not, ◌||◌, ◌&&◌, ◌≡◌, ◌↔◌, refl, sym, ◌∙◌, List,
  if◌then◌else◌, Option, none, some, Str, codes, str_eq, str_eq_iff, arith,
}
use kube_net_mods.Cluster.{Pod}
use kube_net_mods.Runtime.Probe.{HttpResult}
use kube_net_mods.Istio.Signal.{
  Signal, rbac_denied, jwt_denied, no_healthy_upstream, upstream_reset, from_envoy, says, status_is,
  classify_istio_runtime,
}

-- The tests of classifyIstioRuntime in turn, on their values
abbrev pick : Bool → Bool → Bool → Bool → Bool → Bool → Bool → Bool → Option Signal
pick unauthorized forbidden unavailable envoy jwt rbac none_healthy reset =
    if unauthorized && envoy && jwt
    then some jwt_denied
    else if forbidden && envoy && rbac
    then some rbac_denied
    else if unavailable && envoy && none_healthy
    then some no_healthy_upstream
    else if unavailable && envoy && reset
    then some upstream_reset
    else none

abbrev Picked : Bool → Bool → Bool → Bool → Bool → Bool → Bool → Bool → Signal → Type 0
Picked a b c envoy jwt rbac none_healthy reset jwt_denied = ((a && envoy && jwt) ≡ true)
Picked a b c envoy jwt rbac none_healthy reset rbac_denied = ((b && envoy && rbac) ≡ true)
Picked a b c envoy jwt rbac none_healthy reset no_healthy_upstream =
    ((c && envoy && none_healthy) ≡ true)
Picked a b c envoy jwt rbac none_healthy reset upstream_reset =
    ((c && envoy && not none_healthy && reset) ≡ true)

pick_iff :
    (a b c envoy jwt rbac none_healthy reset : Bool) (signal : Signal)
    → (a && b) ≡ false
    → (a && c) ≡ false
    → (b && c) ≡ false
    → (pick a b c envoy jwt rbac none_healthy reset ≡ some signal)
      ↔ Picked a b c envoy jwt rbac none_healthy reset signal
pick_iff a b c envoy jwt rbac none_healthy reset jwt_denied h k l =
    (λ e. ground arith, λ e. ground arith)
pick_iff a b c envoy jwt rbac none_healthy reset rbac_denied h k l =
    (λ e. ground arith, λ e. ground arith)
pick_iff a b c envoy jwt rbac none_healthy reset no_healthy_upstream h k l =
    (λ e. ground arith, λ e. ground arith)
pick_iff a b c envoy jwt rbac none_healthy reset upstream_reset h k l =
    (λ e. ground arith, λ e. ground arith)

module _ (result : HttpResult) (source : Option Pod) (pods : List Pod) where
  apart : (a b : Str) → str_eq a b ≡ false → (status_is result a && status_is result b) ≡ false
  apart a b ne = false_of_not _ (λ h.
      let both = (and_iff (status_is result a) (status_is result b)).0 h in
      let same = (str_eq_iff a b).1 (
        sym ((str_eq_iff result.status_code a).0 both.0)
        ∙ (str_eq_iff result.status_code b).0 both.1) in
      ground (arith, same, ne))

  abbrev asks_token : Bool
  asks_token = says result (codes "jwt") || says result (codes "unauthorized")

  abbrev resets : Bool
  resets =
      says result (codes "upstream connect error")
      || says result (codes "reset before headers")
      || says result (codes "connection termination")

  -- The answer from Envoy that has the status and the words of the signal.
  abbrev pub Answers : Signal → Type 0
  Answers jwt_denied =
      ((status_is result (codes "401") && from_envoy result source pods && asks_token) ≡ true)
  Answers rbac_denied =
      ((status_is result (codes "403")
          && from_envoy result source pods
          && says result (codes "rbac: access denied"))
        ≡ true)
  Answers no_healthy_upstream =
      ((status_is result (codes "503")
          && from_envoy result source pods
          && says result (codes "no healthy upstream"))
        ≡ true)
  Answers upstream_reset =
      ((status_is result (codes "503")
          && from_envoy result source pods
          && not (says result (codes "no healthy upstream"))
          && resets)
        ≡ true)

  picked :
      (jwt rbac none_healthy reset : Bool) (signal : Signal)
      → (pick
            (status_is result (codes "401"))
            (status_is result (codes "403"))
            (status_is result (codes "503"))
            (from_envoy result source pods)
            jwt
            rbac
            none_healthy
            reset
          ≡ some signal)
        ↔ Picked
            (status_is result (codes "401"))
            (status_is result (codes "403"))
            (status_is result (codes "503"))
            (from_envoy result source pods)
            jwt
            rbac
            none_healthy
            reset
            signal
  unfolding str_eq
  picked jwt rbac none_healthy reset signal =
      pick_iff (status_is result (codes "401")) (status_is result (codes "403"))
        (status_is result (codes "503")) (from_envoy result source pods) jwt rbac none_healthy reset
        signal (apart (codes "401") (codes "403") refl) (apart (codes "401") (codes "503") refl)
        (apart (codes "403") (codes "503") refl)

  -- An answer is given a signal exactly when it comes from Envoy, or from a path with a sidecar, and has
  -- the status and the words of that signal; the statuses exclude each other, and of the two signals of
  -- a 503 the missing upstream goes first.
  pub classify_istio_runtime_iff :
      (signal : Signal) → (classify_istio_runtime result source pods ≡ some signal) ↔ Answers signal
  unfolding classify_istio_runtime
  classify_istio_runtime_iff jwt_denied =
      picked asks_token (says result (codes "rbac: access denied"))
        (says result (codes "no healthy upstream")) resets jwt_denied
  classify_istio_runtime_iff rbac_denied =
      picked asks_token (says result (codes "rbac: access denied"))
        (says result (codes "no healthy upstream")) resets rbac_denied
  classify_istio_runtime_iff no_healthy_upstream =
      picked asks_token (says result (codes "rbac: access denied"))
        (says result (codes "no healthy upstream")) resets no_healthy_upstream
  classify_istio_runtime_iff upstream_reset =
      picked asks_token (says result (codes "rbac: access denied"))
        (says result (codes "no healthy upstream")) resets upstream_reset
