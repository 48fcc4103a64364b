-- ===== src/Istio/Traffic/Intentional.antt =====
-- inspectIstioIntentionalRouteBehavior (internal/check/istio_traffic.go): what a VirtualService does to a
-- request on purpose. Numbers of Go's float64 with two decimals, and durations, are printed by arguments.
pub mod Delays
pub mod Inspect
use kube_net_mods.Prelude.{
  ℕ, zero, suc, ◌+◌, ◌-◌, ◌*◌, ◌%◌, Bool, true, false, not, ◌||◌, ◌&&◌, ◌==◌, ltb, leb, List, [],
  ◌∷◌, ◌++◌, any, all, Option, none, some, Str, codes, str_eq, is_empty, if◌then◌else◌, contains,
  to_lower, trim_space, ℤ, pos, negsuc, int_eq, int_leb, is_pos, quote, decimal, digits, sprintf,
}
use kube_net_mods.Model.{Report, Status, fail, warn, pass, add, diagnose}
use kube_net_mods.Cluster.{Pod, Service, Selectors}
use kube_net_mods.Native.Path.{service_name}
use kube_net_mods.Runtime.Probe.{HttpResult}
use kube_net_mods.Calico.Value.{Floats}
use kube_net_mods.Istio.Request.{Urls, ServiceOptions, Request, new_request}
use kube_net_mods.Istio.Matching.{Regexps, istio_http_route_match_text}
use kube_net_mods.Istio.Client.{
  Answer, items, not_found, failed, list_istio_configs, istio_config_namespaces,
  istio_service_path_virtual_services, add_istio_list_warning,
}
use kube_net_mods.Istio.Config.{Duration, Abort, Delay, Fault, HttpRoute, VirtualService}
use kube_net_mods.Istio.Traffic.{route_text, match_suffix, istio_virtual_service_hosts_service}
use kube_net_mods.Istio.Traffic.Routing.{Configs, config_name, traffic_layer}
use kube_net_mods.Istio.Mtls.Checks.{failure_text}
use kube_net_mods.Istio.Traffic.Numbers.{nanoseconds, runtime_status_code}

-- istioIntentionalRouteBehavior
pub record Behavior : Type 0 where
  pub id : Str
  pub runtime_status : Status
  pub runtime_message : Str
  pub layer_check : Str
  pub layer_status : Status
  pub layer_message : Str
  pub diagnosis : Str

unfoldable pub runtime_looks_like_timeout : HttpResult → Bool
unfolding contains to_lower
runtime_looks_like_timeout result =
    contains (failure_text result) (codes "timed out")
    || contains (failure_text result) (codes "timeout")
    || contains (failure_text result) (codes "operation timed out")
    || contains (failure_text result) (codes "context deadline exceeded")

module _ (F : Floats) (fixed_text : F.Float → Str) (duration_text : ℤ → Str) where
  open F use {Float, less, whole, of_int}

  unfoldable pub istio_percent_value : Option Float → ℤ → Float
  istio_percent_value (some value) legacy = value
  istio_percent_value none legacy = if is_pos legacy then of_int legacy else of_int (pos 0)

  -- %.0f%% or %.2f%%
  unfoldable pub istio_percent_text : Float → Str
  unfolding decimal
  istio_percent_text percent =
      (elim (whole percent) [ none ↦ fixed_text percent | some n ↦ decimal n ]) ++ codes "%"

  abbrev istio_format_duration : ℤ → Str
  istio_format_duration value = if is_pos value then duration_text value else codes "0s"

  unfoldable pub istio_delay_text : Option Duration → Option Duration → Str
  unfolding nanoseconds
  istio_delay_text (some fixed) exponential = istio_format_duration (nanoseconds fixed)
  istio_delay_text none (some exponential) =
      codes "exponential delay around " ++ istio_format_duration (nanoseconds exponential)
  istio_delay_text none none = codes "an unspecified delay"

  -- A percentage is a number: Istio admits none that is not.
  abbrev pub positive : Float → Bool
  positive percent = less (of_int (pos 0)) percent

  -- Not all of the matching requests
  abbrev pub partial : Float → Bool
  partial percent = less percent (of_int (pos 100))

  -- "Primary issue", or a candidate when only some requests are meant
  abbrev prefix_for : Float → Str
  prefix_for percent =
      if partial percent then codes "Primary issue candidate" else codes "Primary issue"

  abbrev status_for : Float → Status
  status_for percent = if partial percent then warn else fail

  module _ (vs : Str) (via : Str) (suffix : Str) (service : Service) (result : HttpResult) where
    abbrev check : Str
    check = vs ++ codes " " ++ via

    abbrev target : Str
    target = service_name (some service)

    abbrev behaves : Str → Status → Str → Status → Str → Str → Behavior
    behaves kind runtime_status runtime_message layer_status layer_message diagnosis = record {
      id = kind ++ codes "|" ++ check;
      runtime_status = runtime_status;
      runtime_message = runtime_message;
      layer_check = check;
      layer_status = layer_status;
      layer_message = layer_message;
      diagnosis = diagnosis;
    }

    unfoldable pub direct_behavior : ℤ → Option Behavior
    unfolding runtime_status_code sprintf decimal service_name
    direct_behavior status =
        if int_eq status (pos 0)
          || not (int_eq (runtime_status_code result) status)
          || not (int_leb (pos 400) status)
        then none
        else some (
            behaves (codes "direct-response") fail
              (sprintf (codes "Envoy returned HTTP %d from VirtualService direct response %s.")
                (decimal status ∷ check ∷ []))
              fail
              (sprintf
                (codes "VirtualService %s %s%s returns a direct HTTP %d response for Service %q.")
                (vs ∷ via ∷ suffix ∷ decimal status ∷ service.name ∷ []))
              (sprintf
                (codes
                  "Primary issue: Istio VirtualService %q %s%s directly returns HTTP %d for Service %q instead of routing to backend pods.")
                (vs ∷ via ∷ suffix ∷ decimal status ∷ target ∷ [])))

    unfoldable pub redirect_behavior : ℤ → Option Behavior
    unfolding runtime_status_code sprintf decimal service_name
    redirect_behavior code =
        let configured = if int_eq code (pos 0) then pos 301 else code in
        let seen = runtime_status_code result in
        let status_text : Str =
          if int_eq configured seen
          then sprintf (codes "HTTP %d") (decimal configured ∷ [])
          else sprintf (codes "HTTP %d observed, redirect config defaults/sets HTTP %d")
              (decimal seen ∷ decimal configured ∷ []) in
        if not (int_leb (pos 300) seen) || not (int_leb seen (pos 399))
        then none
        else some (
            behaves (codes "redirect") warn
              (sprintf (codes "Envoy returned redirect %s from VirtualService %s.")
                (status_text ∷ check ∷ []))
              warn
              (sprintf
                (codes
                  "VirtualService %s %s%s redirects matching requests for Service %q. Observed %s.")
                (vs ∷ via ∷ suffix ∷ service.name ∷ status_text ∷ []))
              (sprintf
                (codes
                  "Primary issue candidate: Istio VirtualService %q %s%s redirects requests for Service %q. The request is reaching Envoy, but the route intentionally sends a redirect instead of backend traffic.")
                (vs ∷ via ∷ suffix ∷ target ∷ [])))

    unfoldable pub abort_behavior : Abort F → Option Behavior
    unfolding runtime_status_code sprintf decimal service_name istio_percent_value
        istio_percent_text
    abort_behavior abort =
        let status = decimal abort.http_status in
        let percent = istio_percent_value abort.percentage (pos 0) in
        let text = istio_percent_text percent in
        if not (is_pos abort.http_status) || not (positive percent)
        then none
        else if int_eq (runtime_status_code result) abort.http_status
        then some (
            behaves (codes "fault-abort") fail
              (sprintf (codes "Envoy returned HTTP %d from VirtualService fault abort %s.")
                (status ∷ check ∷ []))
              (status_for percent)
              (sprintf
                (codes
                  "VirtualService %s %s%s aborts %s of matching requests for Service %q with HTTP %d.")
                (vs ∷ via ∷ suffix ∷ text ∷ service.name ∷ status ∷ []))
              (sprintf
                (codes
                  "%s: Istio VirtualService %q %s%s intentionally aborts %s of requests to Service %q with HTTP %d.")
                (prefix_for percent ∷ vs ∷ via ∷ suffix ∷ text ∷ target ∷ status ∷ [])))
        else if result.ok && partial percent
        then some (
            behaves (codes "fault-abort-risk") warn
              (sprintf
                (codes
                  "This probe reached the Service, but VirtualService %s fault-aborts %s of matching requests with HTTP %d.")
                (check ∷ text ∷ status ∷ []))
              warn
              (sprintf
                (codes
                  "VirtualService %s %s%s aborts %s of matching requests for Service %q with HTTP %d. This can cause intermittent failures even when one probe succeeds.")
                (vs ∷ via ∷ suffix ∷ text ∷ service.name ∷ status ∷ []))
              (sprintf
                (codes
                  "Primary issue candidate: Istio VirtualService %q %s%s fault-aborts %s of requests to Service %q with HTTP %d. This can make the path fail intermittently.")
                (vs ∷ via ∷ suffix ∷ text ∷ target ∷ status ∷ [])))
        else none

    unfoldable pub delay_behavior : Delay F → Option Behavior
    unfolding runtime_looks_like_timeout sprintf service_name istio_percent_value istio_percent_text
        istio_delay_text
    delay_behavior delay =
        let percent = istio_percent_value delay.percentage delay.percent in
        let text = istio_percent_text percent in
        let by = istio_delay_text delay.fixed delay.exponential in
        if not (positive percent)
        then none
        else if result.ok && partial percent
        then some (
            behaves (codes "fault-delay-risk") warn
              (sprintf
                (codes
                  "This probe reached the Service, but VirtualService %s delays %s of matching requests by %s.")
                (check ∷ text ∷ by ∷ []))
              warn
              (sprintf
                (codes
                  "VirtualService %s %s%s delays %s of matching requests for Service %q by %s. This can cause intermittent slow requests or client timeouts.")
                (vs ∷ via ∷ suffix ∷ text ∷ service.name ∷ by ∷ []))
              (sprintf
                (codes
                  "Primary issue candidate: Istio VirtualService %q %s%s delays %s of requests to Service %q by %s. This can make the path intermittently slow or timeout.")
                (vs ∷ via ∷ suffix ∷ text ∷ target ∷ by ∷ [])))
        else if not result.ok && runtime_looks_like_timeout result
        then some (
            behaves (codes "fault-delay") fail
              (sprintf
                (codes
                  "Probe timed out and VirtualService %s delays %s of matching requests by %s.")
                (check ∷ text ∷ by ∷ []))
              (status_for percent)
              (sprintf
                (codes
                  "VirtualService %s %s%s delays %s of matching requests for Service %q by %s.")
                (vs ∷ via ∷ suffix ∷ text ∷ service.name ∷ by ∷ []))
              (sprintf
                (codes
                  "%s: Istio VirtualService %q %s%s delays %s of requests to Service %q by %s, and the runtime probe timed out.")
                (prefix_for percent ∷ vs ∷ via ∷ suffix ∷ text ∷ target ∷ by ∷ [])))
        else none

    abbrev or_else : Option Behavior → Option Behavior → Option Behavior
    or_else (some behavior) rest = some behavior
    or_else none rest = rest

    abbrev of_abort : Option (Abort F) → Option Behavior
    of_abort none = none
    of_abort (some abort) = abort_behavior abort

    abbrev of_delay : Option (Delay F) → Option Behavior
    of_delay none = none
    of_delay (some delay) = delay_behavior delay

    abbrev of_fault : Option (Fault F) → Option Behavior
    of_fault none = none
    of_fault (some fault) = or_else (of_abort fault.abort) (of_delay fault.delay)

    -- A direct response goes before a redirect, and both before a fault.
    unfoldable pub route_behavior : HttpRoute F → Option Behavior
    unfolding direct_behavior redirect_behavior abort_behavior delay_behavior
    route_behavior route = elim route.direct_response [
      | some status ↦ direct_behavior status
      | none ↦ elim route.redirect [
        | some code ↦ redirect_behavior code
        | none ↦ of_fault route.fault
      ]
    ]
