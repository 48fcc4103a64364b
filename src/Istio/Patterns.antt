-- ===== src/Istio/Patterns.antt =====
-- The string patterns of an Istio authorization policy (internal/check/istio_authz.go).
pub mod Lists
use kube_net_mods.Prelude.{
  ℕ, Bool, true, false, ◌||◌, ◌&&◌, not, ◌≡◌, ◌≢◌, refl, sym, ap, ◌∙◌, ◌↔◌, ◌⊎◌, inl, inr, List, [],
  ◌∷◌, ◌++◌, Memᴰ, Str, codes, str_eq, str_eq_iff, str_eq_refl, has_prefix, has_prefix_iff,
  has_suffix, has_suffix_iff, trim_prefix, trim_suffix, trim_prefix-append, trim_suffix-append,
  to_lower, to_lower_idem, if◌then◌else◌, any, any_iff, Exists, is_empty, arith, Bool-cases,
  cons_ne, length, ltb, length-append, false_of_not, not-true,
}

abbrev pub star : Str
star = codes "*"

-- The `switch`, on text that is folded already.
unfoldable pub pattern_matches : Str → Str → Bool
unfolding str_eq has_prefix has_suffix trim_prefix trim_suffix
pattern_matches pattern value =
    if str_eq pattern star
    then not (is_empty value)
    else if has_prefix pattern star && ltb 1 (length pattern)
    then has_suffix value (trim_prefix pattern star)
    else if has_suffix pattern star && ltb 1 (length pattern)
    then has_prefix value (trim_suffix pattern star)
    else str_eq pattern value

unfoldable pub istio_auth_pattern_matches : Str → Str → Bool → Bool
unfolding pattern_matches to_lower
istio_auth_pattern_matches pattern value ignore_case =
    if ignore_case
    then pattern_matches (to_lower pattern) (to_lower value)
    else pattern_matches pattern value

unfoldable pub istio_string_list_any_matches : List Str → Str → Bool → Bool
unfolding istio_auth_pattern_matches
istio_string_list_any_matches patterns value ignore_case =
    any (λ pattern. istio_auth_pattern_matches pattern value ignore_case) patterns

unfoldable pub istio_string_list_matches : List Str → Str → Bool → Bool
unfolding istio_string_list_any_matches
istio_string_list_matches patterns value ignore_case =
    if is_empty patterns then true else istio_string_list_any_matches patterns value ignore_case

unfoldable pub istio_any_string_list_any_matches : List Str → List Str → Bool → Bool
unfolding istio_string_list_any_matches
istio_any_string_list_any_matches patterns values ignore_case =
    any (λ value. istio_string_list_any_matches patterns value ignore_case) values

unfoldable pub istio_any_string_list_matches : List Str → List Str → Bool → Bool
unfolding istio_any_string_list_any_matches
istio_any_string_list_matches patterns values ignore_case =
    if is_empty patterns
    then true
    else istio_any_string_list_any_matches patterns values ignore_case

-- What a pattern means: "*" is any value but the empty one; a star in front leaves what the value ends
-- with; else a star at the end leaves what it begins with; any other pattern is the value itself.
pub data PatternFits (pattern value : Str) : Type 0 where
  present : pattern ≡ star → is_empty value ≡ false → PatternFits pattern value
  ends :
      (tail before : Str)
      → pattern ≡ star ++ tail
      → is_empty tail ≡ false
      → value ≡ before ++ tail
      → PatternFits pattern value
  begins :
      (head rest : Str)
      → has_prefix pattern star ≡ false
      → pattern ≡ head ++ star
      → is_empty head ≡ false
      → value ≡ head ++ rest
      → PatternFits pattern value
  is_value :
      has_prefix pattern star ≡ false
      → has_suffix pattern star ≡ false
      → value ≡ pattern
      → PatternFits pattern value

-- The answer for each of the four shapes of a pattern.
matches-star : (value : Str) → pattern_matches star value ≡ not (is_empty value)
unfolding pattern_matches
matches-star value = refl

matches-tail :
    (tail value : Str)
    → is_empty tail ≡ false
    → pattern_matches (star ++ tail) value ≡ has_suffix value tail
unfolding pattern_matches
matches-tail [] value h = cc
matches-tail (c ∷ tail) value h = ground arith

star-ne : (pattern : Str) → has_prefix pattern star ≡ false → str_eq pattern star ≡ false
star-ne pattern h =
    false_of_not _ λ e.
      let q = (has_prefix_iff pattern star).1 ([], (str_eq_iff pattern star).0 e) in ground arith

head-long : (head : Str) → is_empty head ≡ false → ltb 1 (length (head ++ star)) ≡ true
head-long [] h = cc
head-long (c ∷ head) h = ground (arith, length-append head star)

prefix_branch :
    (pattern value : Str)
    → str_eq pattern star ≡ false
    → has_prefix pattern star ≡ false
    → has_suffix pattern star ≡ true
    → ltb 1 (length pattern) ≡ true
    → pattern_matches pattern value ≡ has_prefix value (trim_suffix pattern star)
unfolding pattern_matches
prefix_branch pattern value a b c d = rw (a, b, c, d)

matches-head :
    (head value : Str)
    → is_empty head ≡ false
    → has_prefix (head ++ star) star ≡ false
    → pattern_matches (head ++ star) value ≡ has_prefix value head
matches-head head value filled plain =
    prefix_branch (head ++ star) value (star-ne (head ++ star) plain) plain
      ((has_suffix_iff (head ++ star) star).1 (head, refl)) (head-long head filled)
    ∙ ap (λ s. has_prefix value s) (trim_suffix-append head star)

matches-value :
    (pattern value : Str)
    → has_prefix pattern star ≡ false
    → has_suffix pattern star ≡ false
    → pattern_matches pattern value ≡ str_eq pattern value
unfolding pattern_matches
matches-value pattern value p s = rw (star-ne pattern p, p, s)

-- Every pattern has one of the four shapes.
data Shape (pattern : Str) : Type 0 where
  is_star : pattern ≡ star → Shape pattern
  has_tail : (tail : Str) → is_empty tail ≡ false → pattern ≡ star ++ tail → Shape pattern
  has_head :
      (head : Str)
      → is_empty head ≡ false
      → has_prefix pattern star ≡ false
      → pattern ≡ head ++ star
      → Shape pattern
  is_plain : has_prefix pattern star ≡ false → has_suffix pattern star ≡ false → Shape pattern

tail-Shape : (pattern tail : Str) → pattern ≡ star ++ tail → Shape pattern
tail-Shape pattern [] e = is_star e
tail-Shape pattern (c ∷ tail) e = has_tail (c ∷ tail) refl e

head-Shape :
    (pattern head : Str) → has_prefix pattern star ≡ false → pattern ≡ head ++ star → Shape pattern
head-Shape pattern [] p e = absurd (let q = (has_prefix_iff pattern star).1 ([], e) in ground arith)
head-Shape pattern (c ∷ head) p e = has_head (c ∷ head) refl p e

shape : (pattern : Str) → Shape pattern
shape pattern = elim (Bool-cases (has_prefix pattern star)) [
  | inl p ↦ let (tail, e) = (has_prefix_iff pattern star).0 p in tail-Shape pattern tail e
  | inr p ↦ elim (Bool-cases (has_suffix pattern star)) [
    | inl s ↦ let (head, e) = (has_suffix_iff pattern star).0 s in head-Shape pattern head p e
    | inr s ↦ is_plain p s
  ]
]

fits_of_Shape :
    (pattern value : Str)
    → Shape pattern
    → pattern_matches pattern value ≡ true
    → PatternFits pattern value
fits_of_Shape pattern value (is_star e) h =
    present e (not-true _ (sym (matches-star value) ∙ rw e at h))
fits_of_Shape pattern value (has_tail tail filled e) h =
    let (before, q) =
      (has_suffix_iff value tail).0 (sym (matches-tail tail value filled) ∙ rw e at h) in
    ends tail before e filled q
fits_of_Shape pattern value (has_head head filled plain e) h =
    let (rest, q) =
      (has_prefix_iff value head).0
        (sym (matches-head head value filled (rw e at plain)) ∙ rw e at h) in
    begins head rest plain e filled q
fits_of_Shape pattern value (is_plain p s) h =
    is_value p s (sym ((str_eq_iff pattern value).0 (sym (matches-value pattern value p s) ∙ h)))

matches_of_fits :
    {pattern value : Str} → PatternFits pattern value → pattern_matches pattern value ≡ true
matches_of_fits {value} (present e filled) = rw (e, matches-star value, filled)
matches_of_fits {value} (ends tail before e filled q) =
    rw e (matches-tail tail value filled ∙ (has_suffix_iff value tail).1 (before, q))
matches_of_fits {value} (begins head rest plain e filled q) =
    rw e (matches-head head value filled (rw e at plain) ∙ (has_prefix_iff value head).1 (rest, q))
matches_of_fits {pattern} {value} (is_value p s e) =
    matches-value pattern value p s ∙ (str_eq_iff pattern value).1 (sym e)

-- Compared with case, a pattern matches exactly the values that fit it; compared without, exactly
-- those that fit it when both are lowered.
pub istio_auth_pattern_matches_iff :
    (pattern value : Str)
    → ((istio_auth_pattern_matches pattern value false ≡ true) ↔ PatternFits pattern value)
      × ((istio_auth_pattern_matches pattern value true ≡ true)
          ↔ PatternFits (to_lower pattern) (to_lower value))
unfolding istio_auth_pattern_matches
istio_auth_pattern_matches_iff pattern value = (
  (fits_of_Shape pattern value (shape pattern), matches_of_fits),
  (fits_of_Shape (to_lower pattern) (to_lower value) (shape (to_lower pattern)), matches_of_fits),
)
