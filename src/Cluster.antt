-- ===== src/Cluster.antt =====
-- The Kubernetes objects that internal/policy/native, internal/check and internal/runtime read, with
-- the fields that they read, and the two packages that they hand data to: the label selectors of
-- k8s.io/apimachinery and the addresses of net/netip.
use kube_net_mods.Prelude.{Bool, List, [], ◌∷◌, Option, none, some, Str, str_eq, if◌then◌else◌, ℤ}

-- A Go map from strings to strings, as a list of its entries.
abbrev pub Labels : Type 0
Labels = List (Str × Str)

abbrev pub lookup {ℓ} : {V : Type ℓ} → Str → List (Str × V) → Option V
lookup key [] = none
lookup key ((k, v) ∷ entries) =
    let later = lookup key entries in if str_eq k key then some v else later

-- A read of a missing key gives the empty string.
abbrev pub value_or_empty : Option Str → Str
value_or_empty none = []
value_or_empty (some v) = v

pub data IntOrString : Type 0 where
  int_value : ℤ → IntOrString
  string_value : Str → IntOrString

pub record ContainerPort : Type 0 where
  pub name : Str
  pub number : ℤ
  pub protocol : Str

pub record Container : Type 0 where
  pub name : Str
  pub ports : List ContainerPort

pub record Condition : Type 0 where
  pub kind : Str
  pub status : Str

pub record Pod : Type 0 where
  pub name : Str
  pub namespace : Str
  pub labels : Labels
  pub annotations : Labels
  pub pod_ip : Str
  pub phase : Str
  pub conditions : List Condition
  pub service_account : Str
  pub containers : List Container

pub record Namespace : Type 0 where
  pub name : Str
  pub labels : Labels

pub record ServicePort : Type 0 where
  pub name : Str
  pub port : ℤ
  pub target_port : IntOrString
  pub protocol : Str
  pub node_port : ℤ

pub record Service : Type 0 where
  pub name : Str
  pub namespace : Str
  pub kind : Str
  pub cluster_ip : Str
  pub external_name : Str
  pub selector : Labels
  pub ports : List ServicePort

-- metav1.LabelSelectorAsSelector, which refuses a malformed selector, and
-- labels.SelectorFromSet(set).Matches(labels) and labels.Set.String().
pub record Selectors : Type 1 where
  pub LabelSelector : Type 0
  pub as_selector : LabelSelector → Option (Labels → Bool)
  pub set_matches : Labels → Labels → Bool
  pub set_string : Labels → Str

-- netip.ParsePrefix, netip.ParseAddr and Prefix.Contains.
pub record Netip : Type 1 where
  pub Prefix : Type 0
  pub Addr : Type 0
  pub parse_prefix : Str → Option Prefix
  pub parse_addr : Str → Option Addr
  pub contains : Prefix → Addr → Bool
