-- ===== src/Istio/Rules/Numbers.antt =====
-- The numbers of the matching rules (internal/check/istio_authz.go,
-- istioAuthorizationRuleNumbers).
use kube_net_mods.Prelude.{
  ℕ, zero, suc, ◌+◌, true, not, ◌≡◌, refl, ◌↔◌, inl, inr, List, [], ◌∷◌, Memᴰ, Option, none, some,
  Str, is_empty, any, arith, Bool-cases, mem_there, mem_inv, get_elem?,
}
use mathlib.Core.Option.{some-injective}
use kube_net_mods.Prelude.{subst}
use kube_net_mods.Istio.Request.{Request}
use kube_net_mods.Istio.Rules.{
  AuthRule, istio_authorization_rule_matches, rule_hits, numbers_from,
  istio_authorization_rule_numbers,
}

-- The place of a number in the list of rules.
abbrev Numbered : ℕ → List (Option AuthRule) → Str → Request → ℕ → Type 0
Numbered next rules pns request n =
    (k : ℕ) × (rule : AuthRule) × (n ≡ next + k)
    × (get_elem? rules k ≡ some (some rule))
    × (istio_authorization_rule_matches rule pns request ≡ true)

Numbered-later :
    (next : ℕ) {n : ℕ} (r : Option AuthRule) (rules : List (Option AuthRule)) (pns : Str)
    (request : Request)
    → Numbered (next + 1) rules pns request n
    → Numbered next (r ∷ rules) pns request n
Numbered-later next r rules pns request (k, rule, e, at, hit) = (suc k, rule, omega arith, at, hit)

numbers_sound :
    (next n : ℕ) (rules : List (Option AuthRule)) (pns : Str) (request : Request)
    → Memᴰ n (numbers_from next rules pns request)
    → Numbered next rules pns request n
unfolding numbers_from
numbers_sound next n [] pns request m = elim m [ ]
numbers_sound next n (none ∷ rules) pns request m =
    Numbered-later next none rules pns request (numbers_sound (next + 1) n rules pns request m)
numbers_sound next n (some rule ∷ rules) pns request m =
    elim (Bool-cases (istio_authorization_rule_matches rule pns request)) [
      | inl hit ↦ elim (mem_inv (rw hit at m)) [
        | inl e ↦ (0, rule, omega arith, refl, hit)
        | inr later ↦
            Numbered-later next (some rule) rules pns request
              (numbers_sound (next + 1) n rules pns request later)
      ]
      | inr miss ↦
          Numbered-later next (some rule) rules pns request
            (numbers_sound (next + 1) n rules pns request (rw miss at m))
    ]

numbers_skip :
    (next n : ℕ) (r : Option AuthRule) (rules : List (Option AuthRule)) (pns : Str)
    (request : Request)
    → Memᴰ n (numbers_from (next + 1) rules pns request)
    → Memᴰ n (numbers_from next (r ∷ rules) pns request)
unfolding numbers_from
numbers_skip next n none rules pns request m = m
numbers_skip next n (some rule) rules pns request m =
    elim (Bool-cases (istio_authorization_rule_matches rule pns request)) [
      | inl hit ↦ rw hit (mem_there m)
      | inr miss ↦ rw miss m
    ]

numbers_complete :
    (next k : ℕ) (rules : List (Option AuthRule)) (pns : Str) (request : Request) (rule : AuthRule)
    → get_elem? rules k ≡ some (some rule)
    → istio_authorization_rule_matches rule pns request ≡ true
    → Memᴰ (next + k) (numbers_from next rules pns request)
unfolding numbers_from
numbers_complete next k [] pns request rule at hit = cc
numbers_complete next zero (r ∷ rules) pns request rule at hit =
    let e : r ≡ some rule = some-injective _ _ at in
    let first : rule_hits pns request r ≡ true = rw e hit in rw first (Memᴰ.head (omega arith))
numbers_complete next (suc k) (r ∷ rules) pns request rule at hit =
    numbers_skip next (next + suc k) r rules pns request (
      subst (λ n. Memᴰ n (numbers_from (next + 1) rules pns request)) (omega arith)
        (numbers_complete (next + 1) k rules pns request rule at hit))

-- The numbers are exactly the positions, counted from 1, of the rules that match.
pub istio_authorization_rule_numbers_iff :
    (rules : List (Option AuthRule)) (policy_namespace : Str) (request : Request) (n : ℕ)
    → Memᴰ n (istio_authorization_rule_numbers rules policy_namespace request) ↔ (
        (k : ℕ) × (rule : AuthRule) × (n ≡ 1 + k)
        × (get_elem? rules k ≡ some (some rule))
        × (istio_authorization_rule_matches rule policy_namespace request ≡ true))
unfolding istio_authorization_rule_numbers
istio_authorization_rule_numbers_iff rules pns request n = (
  numbers_sound 1 n rules pns request,
  λ (k, rule, e, at, hit). rw e (numbers_complete 1 k rules pns request rule at hit),
)

empty-numbers_from :
    (next : ℕ) (rules : List (Option AuthRule)) (pns : Str) (request : Request)
    → is_empty (numbers_from next rules pns request) ≡ not (any (rule_hits pns request) rules)
unfolding numbers_from
empty-numbers_from next [] pns request = refl
empty-numbers_from next (r ∷ rules) pns request =
    ground (arith, empty-numbers_from (next + 1) rules pns request)

pub empty-rule_numbers :
    (rules : List (Option AuthRule)) (pns : Str) (request : Request)
    → is_empty (istio_authorization_rule_numbers rules pns request)
      ≡ not (any (rule_hits pns request) rules)
unfolding istio_authorization_rule_numbers
empty-rule_numbers rules pns request = empty-numbers_from 1 rules pns request
