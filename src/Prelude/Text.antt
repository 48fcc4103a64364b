-- ===== src/Prelude/Text.antt =====
-- Go strings as lists of code points, with the operations of package strings that the source uses.
-- `to_lower` folds the ASCII letters: the host names, header names, label keys and keywords that
-- the source lowers hold no other capital.
use Prim.Native.Nat.{ℕ, zero, suc, ◌+◌}
use Prim.Native.Char.{code}
use Prim.Native.String.{String}
use mathlib.Core.Path.{◌≡◌, refl, sym, ap, ap₂, ◌∙◌}
use mathlib.Core.Logic.{◌↔◌, inl, inr}
use mathlib.Core.Bool.{Bool, true, false, ◌&&◌, ◌||◌}
use mathlib.Core.List.{List, [], ◌∷◌, ◌++◌, map, reverse, reverse-append, reverse-reverse}
use native.Mathlib.Omega.{arith}
use kube_net_mods.Prelude.Tests.{leb, ◌==◌, ==_iff, if◌then◌else◌, Bool-cases, Bool-ext}
use kube_net_mods.Prelude.Lists.{length}

abbrev pub Str : Type 0
Str = List ℕ

abbrev pub codes : String → Str
codes String.[] = []
codes (String.◌∷◌ c s) = code c ∷ codes s

unfoldable pub str_eq : Str → Str → Bool
str_eq [] [] = true
str_eq (a ∷ s) (b ∷ t) = if a == b then str_eq s t else false
str_eq _ _ = false

pub str_eq_refl : (s : Str) → str_eq s s ≡ true
unfolding str_eq
str_eq_refl [] = refl
str_eq_refl (a ∷ s) = rw ((==_iff a a).1 refl) (str_eq_refl s)

eq_of_str_eq : (s t : Str) → str_eq s t ≡ true → s ≡ t
unfolding str_eq
eq_of_str_eq [] [] h = refl
eq_of_str_eq [] (b ∷ t) h = cc
eq_of_str_eq (a ∷ s) [] h = cc
eq_of_str_eq (a ∷ s) (b ∷ t) h = elim (Bool-cases (a == b)) [
  | inl e ↦ ap₂ ◌∷◌ ((==_iff a b).0 e) (eq_of_str_eq s t (rw e at h))
  | inr e ↦ ground arith
]

pub str_eq_iff : (s t : Str) → (str_eq s t ≡ true) ↔ (s ≡ t)
str_eq_iff s t = (eq_of_str_eq s t, λ e. rw e (str_eq_refl t))

-- strings.HasPrefix
unfoldable pub has_prefix : Str → Str → Bool
has_prefix s [] = true
has_prefix [] (c ∷ p) = false
has_prefix (d ∷ s) (c ∷ p) = if d == c then has_prefix s p else false

prefix_of_has : (s p : Str) → has_prefix s p ≡ true → (t : Str) × (s ≡ p ++ t)
unfolding has_prefix
prefix_of_has s [] h = (s, refl)
prefix_of_has [] (c ∷ p) h = ground arith
prefix_of_has (d ∷ s) (c ∷ p) h = elim (Bool-cases (d == c)) [
  | inl e ↦ let (t, q) = prefix_of_has s p (rw e at h) in (t, ap₂ ◌∷◌ ((==_iff d c).0 e) q)
  | inr e ↦ ground arith
]

pub has_prefix-append : (p t : Str) → has_prefix (p ++ t) p ≡ true
unfolding has_prefix
has_prefix-append [] t = refl
has_prefix-append (c ∷ p) t = rw ((==_iff c c).1 refl) (has_prefix-append p t)

pub has_prefix_iff : (s p : Str) → (has_prefix s p ≡ true) ↔ ((t : Str) × (s ≡ p ++ t))
has_prefix_iff s p = (prefix_of_has s p, λ (t, e). rw e (has_prefix-append p t))

-- strings.HasSuffix
unfoldable pub has_suffix : Str → Str → Bool
unfolding has_prefix
has_suffix s p = has_prefix (reverse s) (reverse p)

pub has_suffix_iff : (s p : Str) → (has_suffix s p ≡ true) ↔ ((t : Str) × (s ≡ t ++ p))
unfolding has_suffix
has_suffix_iff s p = (
  λ h.
      let (t, e) = (has_prefix_iff (reverse s) (reverse p)).0 h in
      (
        reverse t,
        sym (reverse-reverse s)
            ∙ ap reverse e
            ∙ reverse-append (reverse p) t
            ∙ ap (λ (q : Str). reverse t ++ q) (reverse-reverse p),
      ),
  λ (t, e).
      (has_prefix_iff (reverse s) (reverse p)).1 (reverse t, ap reverse e ∙ reverse-append t p),
)

abbrev pub drop : ℕ → Str → Str
drop zero s = s
drop (suc n) [] = []
drop (suc n) (c ∷ s) = drop n s

-- strings.TrimPrefix and strings.TrimSuffix
unfoldable pub trim_prefix : Str → Str → Str
unfolding has_prefix
trim_prefix s p = if has_prefix s p then drop (length p) s else s

unfoldable pub trim_suffix : Str → Str → Str
unfolding trim_prefix
trim_suffix s p = reverse (trim_prefix (reverse s) (reverse p))

drop-append : (p t : Str) → drop (length p) (p ++ t) ≡ t
drop-append [] t = refl
drop-append (c ∷ p) t = drop-append p t

pub trim_prefix-append : (p t : Str) → trim_prefix (p ++ t) p ≡ t
unfolding trim_prefix
trim_prefix-append p t = rw (has_prefix-append p t) (drop-append p t)

pub trim_suffix-append : (t p : Str) → trim_suffix (t ++ p) p ≡ t
unfolding trim_suffix
trim_suffix-append t p =
    ap (λ (s : Str). reverse (trim_prefix s (reverse p))) (reverse-append t p)
    ∙ ap reverse (trim_prefix-append (reverse p) (reverse t))
    ∙ reverse-reverse t

-- strings.Contains
unfoldable pub contains : Str → Str → Bool
unfolding has_prefix
contains [] sub = has_prefix [] sub
contains (c ∷ s) sub = has_prefix (c ∷ s) sub || contains s sub

-- strings.ToLower
unfoldable pub lower : ℕ → ℕ
lower c = if leb b'A' c && leb c b'Z' then c + 32 else c

unfoldable pub to_lower : Str → Str
unfolding lower
to_lower s = map lower s

lower_idem : (c : ℕ) → lower (lower c) ≡ lower c
unfolding lower
lower_idem c = ground arith

map-lower_idem : (s : Str) → map lower (map lower s) ≡ map lower s
map-lower_idem [] = refl
map-lower_idem (c ∷ s) = ap₂ ◌∷◌ (lower_idem c) (map-lower_idem s)

pub to_lower_idem : (s : Str) → to_lower (to_lower s) ≡ to_lower s
unfolding to_lower
to_lower_idem s = map-lower_idem s

-- strings.EqualFold, for text whose letters are ASCII
unfoldable pub equal_fold : Str → Str → Bool
unfolding str_eq to_lower
equal_fold s t = str_eq (to_lower s) (to_lower t)

pub str_eq_sym : (s t : Str) → str_eq s t ≡ str_eq t s
str_eq_sym s t = Bool-ext _ _ (
  (λ h. (str_eq_iff t s).1 (sym ((str_eq_iff s t).0 h))),
  (λ h. (str_eq_iff s t).1 (sym ((str_eq_iff t s).0 h))),
)

-- unicode.IsSpace
unfoldable pub is_space : ℕ → Bool
is_space c =
    (leb 9 c && leb c 13)
    || c == 32
    || c == 133
    || c == 160
    || c == 5760
    || (leb 8192 c && leb c 8202)
    || c == 8232
    || c == 8233
    || c == 8239
    || c == 8287
    || c == 12288

-- strings.TrimLeft and strings.TrimSpace
unfoldable pub drop_space : Str → Str
unfolding is_space
drop_space [] = []
drop_space (c ∷ s) = let rest = drop_space s in if is_space c then rest else c ∷ s

unfoldable pub trim_space : Str → Str
unfolding drop_space
trim_space s = reverse (drop_space (reverse (drop_space s)))

-- strings.Count of one character
abbrev pub count_char : ℕ → Str → ℕ
count_char c [] = 0
count_char c (d ∷ s) = let rest = count_char c s in if d == c then suc rest else rest
