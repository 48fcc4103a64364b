-- ===== src/Istio/Config.antt =====
-- VirtualService and DestinationRule (istio.io/client-go), with the fields that internal/check reads. A
-- missing message is read by its getters, so it is a record of empty fields, except where the source
-- tests for nil.
use kube_net_mods.Prelude.{List, Option, Str, ℤ}
use kube_net_mods.Cluster.{Labels}
use kube_net_mods.Calico.Value.{Floats}
use kube_net_mods.Istio.Matching.{HttpMatch}

-- networkingapi.HTTPRouteDestination, with its Destination
pub record RouteTarget : Type 0 where
  pub host : Str
  pub subset : Str
  pub weight : ℤ

-- The seconds and nanoseconds of a protobuf Duration
pub record Duration : Type 0 where
  pub seconds : ℤ
  pub nanos : ℤ

-- ClientTLSSettings_TLSmode
pub data TlsMode : Type 0 where
  disable simple mutual_tls istio_mutual : TlsMode

-- A port-level setting: its port, and the mode of its TLS settings if it has any.
pub record PortSetting : Type 0 where
  pub number : ℤ
  pub tls : Option TlsMode

pub record TrafficPolicy : Type 0 where
  pub port_level : List PortSetting
  pub tls : Option TlsMode

pub record Subset : Type 0 where
  pub name : Str
  pub labels : Labels
  pub policy : Option TrafficPolicy

pub record DestinationRule : Type 0 where
  pub name : Str
  pub namespace : Str
  pub export_to : List Str
  pub host : Str
  pub subsets : List Subset
  pub policy : Option TrafficPolicy

module _ (F : Floats) where
  open F use {Float}

  pub record Abort : Type 0 where
    pub http_status : ℤ
    pub percentage : Option Float

  pub record Delay : Type 0 where
    pub percentage : Option Float
    pub percent : ℤ
    pub fixed : Option Duration
    pub exponential : Option Duration

  pub record Fault : Type 0 where
    pub abort : Option Abort
    pub delay : Option Delay

  -- The direct response is its status, the redirect its code.
  pub record HttpRoute : Type 0 where
    pub name : Str
    pub matches : List (Option HttpMatch)
    pub route : List RouteTarget
    pub direct_response : Option ℤ
    pub redirect : Option ℤ
    pub fault : Option Fault

  pub record VirtualService : Type 0 where
    pub name : Str
    pub namespace : Str
    pub export_to : List Str
    pub gateways : List Str
    pub hosts : List Str
    pub http : List HttpRoute
