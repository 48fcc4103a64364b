-- ===== src/Istio/Patterns/Lists.antt =====
-- What the lists of patterns of an authorization policy ask of a value, or of several values.
use kube_net_mods.Prelude.{
  Bool, true, false, ◌≡◌, refl, ◌↔◌, ◌⊎◌, inl, inr, List, [], ◌∷◌, Str, to_lower, is_empty,
  if◌then◌else◌, any_iff, Exists, cons_ne,
}
use kube_net_mods.Istio.Patterns.{
  PatternFits, istio_auth_pattern_matches, istio_auth_pattern_matches_iff,
  istio_string_list_any_matches, istio_string_list_matches, istio_any_string_list_any_matches,
  istio_any_string_list_matches,
}

-- Fitting with or without regard to case.
abbrev pub FitsCase : Bool → Str → Str → Type 0
FitsCase false pattern value = PatternFits pattern value
FitsCase true pattern value = PatternFits (to_lower pattern) (to_lower value)

pattern_iff :
    (ignore_case : Bool) (pattern value : Str)
    → (istio_auth_pattern_matches pattern value ignore_case ≡ true)
      ↔ FitsCase ignore_case pattern value
pattern_iff false pattern value = (istio_auth_pattern_matches_iff pattern value).0
pattern_iff true pattern value = (istio_auth_pattern_matches_iff pattern value).1

module _ (ignore_case : Bool) where
  -- One of the patterns fits the value.
  abbrev pub Some : List Str → Str → Type 0
  Some patterns value = Exists (λ pattern. FitsCase ignore_case pattern value) patterns

  -- One of the patterns fits one of the values.
  abbrev pub SomeOf : List Str → List Str → Type 0
  SomeOf patterns values = Exists (Some patterns) values

  -- No patterns are given, or one fits.
  abbrev pub Only : List Str → Str → Type 0
  Only patterns value = (patterns ≡ []) ⊎ Some patterns value

  abbrev pub OnlyOf : List Str → List Str → Type 0
  OnlyOf patterns values = (patterns ≡ []) ⊎ SomeOf patterns values

  pub Some-iff :
      (patterns : List Str) (value : Str)
      → (istio_string_list_any_matches patterns value ignore_case ≡ true) ↔ Some patterns value
  unfolding istio_string_list_any_matches
  Some-iff patterns value =
      let (to, from) =
        any_iff (λ pattern. istio_auth_pattern_matches pattern value ignore_case) patterns in
      (
        λ h. let (p, m, hit) = to h in (p, m, (pattern_iff ignore_case p value).0 hit),
        λ (p, m, f). from (p, m, (pattern_iff ignore_case p value).1 f),
      )

  pub SomeOf-iff :
      (patterns values : List Str)
      → (istio_any_string_list_any_matches patterns values ignore_case ≡ true)
        ↔ SomeOf patterns values
  unfolding istio_any_string_list_any_matches
  SomeOf-iff patterns values =
      let (to, from) =
        any_iff (λ value. istio_string_list_any_matches patterns value ignore_case) values in
      (
        λ h. let (v, m, hit) = to h in (v, m, (Some-iff patterns v).0 hit),
        λ (v, m, f). from (v, m, (Some-iff patterns v).1 f),
      )

  unless_empty :
      (patterns : List Str) {P : Type 0} (test : Bool)
      → (test ≡ true) ↔ P
      → ((if is_empty patterns then true else test) ≡ true) ↔ ((patterns ≡ []) ⊎ P)
  unless_empty [] test (to, from) = (λ _. inl refl, λ _. refl)
  unless_empty (p ∷ ps) test (to, from) =
      (λ h. inr (to h), λ k. elim k [ inl e ↦ absurd (cons_ne e) | inr x ↦ from x ])

  pub Only-iff :
      (patterns : List Str) (value : Str)
      → (istio_string_list_matches patterns value ignore_case ≡ true) ↔ Only patterns value
  unfolding istio_string_list_matches
  Only-iff patterns value = unless_empty patterns _ (Some-iff patterns value)

  pub OnlyOf-iff :
      (patterns values : List Str)
      → (istio_any_string_list_matches patterns values ignore_case ≡ true) ↔ OnlyOf patterns values
  unfolding istio_any_string_list_matches
  OnlyOf-iff patterns values = unless_empty patterns _ (SomeOf-iff patterns values)
