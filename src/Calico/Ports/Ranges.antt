-- ===== src/Calico/Ports/Ranges.antt =====
-- What the texts among a rule's ports match (internal/policy/calico/analyze.go, portTokenMatches).
use kube_net_mods.Prelude.{
  ℕ, ◌*◌, ◌+◌, ◌-◌, Bool, true, false, not, ◌&&◌, ◌==◌, ==_iff, ◌≡◌, refl, sym, ap, ◌∙◌, ◌↔◌, ◌⊎◌,
  inl, inr, [], ◌∷◌, Option, none, some, Str, codes, str_eq, str_eq_iff, is_empty, is_space,
  contains, if◌then◌else◌, ℤ, int_eq_iff, Bool-cases, Option-cases, and_iff, not-true,
}
use mathlib.Core.Path.{ap₂}
use mathlib.Core.Option.{some-injective}
use kube_net_mods.Native.Ports.{int32_port_from_int}
use kube_net_mods.Calico.Ports.{
  PortCandidate, is_digit, leading, starts_digit, scan_digits, scan_sign, scan_int, split_colon,
  is_port, range_matches, text_token_matches,
}

colon_not_digit : (c : ℕ) → (c == b':') ≡ true → is_digit c ≡ false
colon_not_digit c e = let q : c ≡ b':' = (==_iff _ _).0 e in rw q refl

leading-split_colon : (n : ℕ) (s : Str) → leading n (split_colon s).0 ≡ leading n s
unfolding leading split_colon
leading-split_colon n [] = refl
leading-split_colon n (c ∷ s) = elim (Bool-cases (c == b':')) [
  | inl e ↦ rw (e, colon_not_digit c e) refl
  | inr e ↦ rw e (elim (Bool-cases (is_digit c)) [
    | inl d ↦ rw d (leading-split_colon (n * 10 + (c - b'0')) s)
    | inr d ↦ rw d refl
  ])
]

starts_digit-split_colon : (s : Str) → starts_digit (split_colon s).0 ≡ starts_digit s
unfolding split_colon
starts_digit-split_colon [] = refl
starts_digit-split_colon (c ∷ s) = elim (Bool-cases (c == b':')) [
  | inl e ↦ rw (e, colon_not_digit c e) refl
  | inr e ↦ rw e refl
]

scan_digits-split_colon :
    (minus : Bool) (s : Str) → scan_digits minus (split_colon s).0 ≡ scan_digits minus s
unfolding scan_digits
scan_digits-split_colon minus s = rw (leading-split_colon 0 s, starts_digit-split_colon s) refl

split_colon-cons :
    (c : ℕ) (s : Str) → (c == b':') ≡ false → (split_colon (c ∷ s)).0 ≡ c ∷ (split_colon s).0
unfolding split_colon
split_colon-cons c s e = rw e refl

scan_sign-split_colon : (s : Str) → scan_sign (split_colon s).0 ≡ scan_sign s
unfolding scan_sign split_colon
scan_sign-split_colon [] = refl
scan_sign-split_colon (c ∷ s) = elim (Bool-cases (c == b':')) [
  | inl e ↦ let q : c ≡ b':' = (==_iff _ _).0 e in rw q refl
  | inr e ↦
      let pick : Option ℤ → Option ℤ → Option ℤ → Option ℤ =
        λ x y z. if c == b'-' then x else if c == b'+' then y else z in
      ap scan_sign (split_colon-cons c s e)
      ∙ ap₂ (λ x y. pick x y (scan_digits false (c ∷ (split_colon s).0)))
          (scan_digits-split_colon true s) (scan_digits-split_colon false s)
      ∙ ap (pick (scan_digits true s) (scan_digits false s)) (
          ap (scan_digits false) (sym (split_colon-cons c s e))
          ∙ scan_digits-split_colon false (c ∷ s))
]

-- Reading stops at a colon anyway.
scan_int-split_colon : (s : Str) → scan_int (split_colon s).0 ≡ scan_int s
unfolding scan_int split_colon
scan_int-split_colon [] = refl
scan_int-split_colon (c ∷ s) = elim (Bool-cases (c == b':')) [
  | inl e ↦ let q : c ≡ b':' = (==_iff _ _).0 e in rw q refl
  | inr e ↦
      ap scan_int (split_colon-cons c s e)
      ∙ ap₂ (λ x y. if c == 10 then none else if is_space c then x else y) (scan_int-split_colon s)
          (ap scan_sign (sym (split_colon-cons c s e)) ∙ scan_sign-split_colon (c ∷ s))
]

range_unreachable :
    (value : Str) (number : ℤ) → scan_int value ≡ none → range_matches value number ≡ false
unfolding range_matches
range_unreachable value number e =
    let f : scan_int (split_colon value).0 ≡ none = scan_int-split_colon value ∙ e in
    rw (f, range_matches) refl

is_port_iff : (o : Option ℤ) (number : ℤ) → (is_port o number ≡ true) ↔ (o ≡ some number)
is_port_iff none number = (λ h. cc, λ h. cc)
is_port_iff (some n) number = (
  λ h. ap some (sym ((int_eq_iff number n).0 h)),
  λ e. (int_eq_iff number n).1 (sym (some-injective _ _ e)),
)

name_iff :
    (value name : Str)
    → ((not (is_empty name) && str_eq value name) ≡ true)
      ↔ ((is_empty name ≡ false) × (value ≡ name))
name_iff value name = (
  λ h. let (a, b) = (and_iff _ _).0 h in (not-true _ a, (str_eq_iff _ _).0 b),
  λ (a, b). (and_iff _ _).1 (rw a refl, (str_eq_iff _ _).1 b),
)

no_range : (b t : Bool) → (if b && false then true else t) ≡ t
no_range true t = refl
no_range false t = refl

-- A text that starts with a number matches the port with that number and no other, whatever follows
-- the number: a range "8000:9000" matches port 8000 alone. Any other text matches a port by its name.
pub text_token_matches_iff :
    (value : Str) (port : PortCandidate)
    → (text_token_matches value port ≡ true) ↔ (
        ((n : ℤ) × (scan_int value ≡ some n) × (int32_port_from_int n ≡ some port.number))
        ⊎ ((scan_int value ≡ none) × (is_empty port.name ≡ false) × (value ≡ port.name)))
unfolding text_token_matches
text_token_matches_iff value port = elim (Option-cases (scan_int value)) [
  | inr (n, e) ↦
      let (to, from) = is_port_iff (int32_port_from_int n) port.number in
      rw (e, text_token_matches)
        (
          λ h. inl (n, refl, to h),
          λ h. elim h [
            | inl (k, f, g) ↦ from (ap int32_port_from_int (some-injective _ _ f) ∙ g)
            | inr (f, _, _) ↦ cc
          ],
        )
  | inl e ↦
      let (to, from) = name_iff value port.name in
      rw
        (
          e,
          range_unreachable value port.number e,
          no_range (contains value (codes ":"))
              (not (is_empty port.name) && str_eq value port.name),
          text_token_matches,
        )
        (
          λ h. let (a, b) = to h in inr (refl, a, b),
          λ h. elim h [ inl (k, f, _) ↦ cc | inr (_, a, b) ↦ from (a, b) ],
        )
]
