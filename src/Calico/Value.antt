-- ===== src/Calico/Value.antt =====
-- Unstructured objects, as internal/policy/calico/analyze.go reads them: a value of JSON, with the
-- floating-point numbers of Go as a parameter.
use kube_net_mods.Prelude.{
  Bool, true, false, List, [], ◌∷◌, Option, none, some, Str, codes, str_eq, if◌then◌else◌, ℤ,
  decimal, trim_space,
}
use kube_net_mods.Cluster.{Labels}
use kube_net_mods.Native.Ports.{int32_port_from_int}

-- float64: the order of the numbers, their values when they are whole, and the conversion from int64.
pub record Floats : Type 1 where
  pub Float : Type 0
  pub less : Float → Float → Bool
  pub whole : Float → Option ℤ
  pub of_int : ℤ → Float

module _ (F : Floats) where
  open F use {Float, whole, of_int}

  mutual
    pub data Value : Type 0 where
      null : Value
      truth : Bool → Value
      int : ℤ → Value
      float : Float → Value
      text : Str → Value
      array : Values → Value
      object : Fields → Value

    pub data Values : Type 0 where
      end : Values
      item : Value → Values → Values

    pub data Fields : Type 0 where
      no_field : Fields
      field : Str → Value → Fields → Fields

  abbrev pub to_list : Values → List Value
  to_list end = []
  to_list (item v vs) = v ∷ to_list vs

  abbrev pub get : Fields → Str → Option Value
  get no_field key = none
  get (field k v fields) key = let later = get fields key in if str_eq k key then some v else later

  abbrev pub has_fields : Fields → Bool
  has_fields no_field = false
  has_fields (field k v fields) = true

  abbrev pub as_text : Option Value → Str
  as_text (some (text s)) = s
  as_text _ = []

  abbrev pub as_object : Option Value → Option Fields
  as_object (some (object fields)) = some fields
  as_object _ = none

  -- unstructured.NestedString of a field of the spec, and NestedSlice
  abbrev pub nested_text : Fields → Str → Str
  nested_text spec key = as_text (get spec key)

  abbrev pub as_list : Option Value → List Value
  as_list (some (array vs)) = to_list vs
  as_list _ = []

  abbrev pub nested_list : Fields → Str → List Value
  nested_list spec key = as_list (get spec key)

  -- fmt's %v; the texts of numbers with fractions and of lists and maps are a parameter.
  module _ (print : Value → Str) where
    abbrev pub printed : Value → Str
    printed null = codes "<nil>"
    printed (truth true) = codes "true"
    printed (truth false) = codes "false"
    printed (int n) = decimal n
    printed (text s) = s
    printed v = print v

    abbrev trimmed : Option Value → Str
    trimmed none = []
    trimmed (some v) = trim_space (printed v)

    unfoldable pub string_from_map : Fields → Str → Str
    unfolding trim_space decimal
    string_from_map fields key = trimmed (get fields key)

    abbrev texts_of : Option Value → Option (List Str)
    texts_of (some (array vs)) = some (print_all vs)
      where
        print_all : Values → List Str
        print_all end = []
        print_all (item v vs) = printed v ∷ print_all vs
    texts_of _ = none

    unfoldable pub string_slice_field : Fields → Str → Option (List Str)
    unfolding decimal
    string_slice_field fields key = texts_of (get fields key)

  unfoldable pub int32_port_from_float64 : Float → Option ℤ
  unfolding int32_port_from_int
  int32_port_from_float64 value = elim (whole value) [
    | none ↦ none
    | some n ↦ int32_port_from_int n
  ]

  abbrev as_port : Option Value → Option ℤ
  as_port (some (int n)) = int32_port_from_int n
  as_port (some (float f)) = int32_port_from_float64 f
  as_port _ = none

  unfoldable pub numeric_field : Fields → Str → Option ℤ
  unfolding int32_port_from_int int32_port_from_float64
  numeric_field fields key = as_port (get fields key)

  abbrev as_float : Option Value → Option Float
  as_float (some (int n)) = some (of_int n)
  as_float (some (float f)) = some f
  as_float _ = none

  unfoldable pub numeric_float_field : Fields → Str → Option Float
  numeric_float_field fields key = as_float (get fields key)

  -- unstructured.Unstructured: its metadata and its spec, which is empty when it is no map.
  pub record Item : Type 0 where
    pub name : Str
    pub namespace : Str
    pub labels : Labels
    pub spec : Fields
