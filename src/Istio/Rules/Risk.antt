-- ===== src/Istio/Rules/Risk.antt =====
-- The rules that istioDenyRuleHasHTTPAttributesWithoutPort looks for (internal/check/istio_authz.go).
use kube_net_mods.Prelude.{
  Bool, true, false, not, ◌||◌, ◌&&◌, ◌≡◌, ◌≢◌, ◌↔◌, ◌⊎◌, refl, inl, inr, List, [], ◌∷◌, Option,
  none, some, Str, codes, str_eq_iff, is_empty, has_prefix, to_lower, Exists, any, any_iff, arith,
  cons_ne, or_iff, has_prefix_iff, ◌++◌,
}
use kube_net_mods.Istio.Rules.{
  Operation, AuthCondition, AuthRule, operation_has_http, operation_has_port, condition_has_http,
  condition_has_port, istio_deny_rule_has_http_attributes_without_port,
}

pub any_by :
    {A : Type 0} (p : A → Bool) (P : A → Type 0)
    → ((x : A) → (p x ≡ true) ↔ P x)
    → (xs : List A) → (any p xs ≡ true) ↔ Exists P xs
any_by p P same xs =
    let (to, from) = any_iff p xs in
    (
      λ h. let (x, m, hit) = to h in (x, m, (same x).0 hit),
      λ (x, m, held). from (x, m, (same x).1 held),
    )

filled : List Str → Bool
filled xs = not (is_empty xs)

filled_iff : (xs : List Str) → (filled xs ≡ true) ↔ (xs ≢ [])
unfolding filled
filled_iff [] = (λ h. cc, λ h. absurd (h refl))
filled_iff (x ∷ xs) = (λ _. cons_ne, λ _. refl)

-- One of the lists is given.
abbrev pub Given : List (List Str) → Type 0
Given lists = Exists (λ xs. xs ≢ []) lists

Given-iff : (lists : List (List Str)) → (any filled lists ≡ true) ↔ Given lists
Given-iff lists = any_by filled (λ xs. xs ≢ []) filled_iff lists

-- An operation that constrains the method, the path or the host.
abbrev pub HttpOperation : Option Operation → Type 0
HttpOperation none = ⊥
HttpOperation (some o) =
    Given (o.methods ∷ o.not_methods ∷ o.paths ∷ o.not_paths ∷ o.hosts ∷ o.not_hosts ∷ [])

-- An operation that constrains the port.
abbrev pub PortOperation : Option Operation → Type 0
PortOperation none = ⊥
PortOperation (some o) = Given (o.ports ∷ o.not_ports ∷ [])

-- A condition on the request or on an HTTP filter.
abbrev pub HttpCondition : Option AuthCondition → Type 0
HttpCondition none = ⊥
HttpCondition (some c) =
    ((rest : Str) × (to_lower c.key ≡ codes "request." ++ rest))
    ⊎ ((rest : Str) × (to_lower c.key ≡ codes "experimental.envoy.filters.http." ++ rest))

-- A condition on the port.
abbrev pub PortCondition : Option AuthCondition → Type 0
PortCondition none = ⊥
PortCondition (some c) = to_lower c.key ≡ codes "destination.port"

-- A rule that needs an HTTP attribute and leaves the port open.
abbrev pub HttpWithoutPort : Option AuthRule → Type 0
HttpWithoutPort none = ⊥
HttpWithoutPort (some rule) =
    (Exists HttpOperation rule.to ⊎ Exists HttpCondition rule.when)
    × (¬ Exists PortOperation rule.to)
    × (¬ Exists PortCondition rule.when)

operation_has_http_iff : (o : Option Operation) → (operation_has_http o ≡ true) ↔ HttpOperation o
unfolding filled
operation_has_http_iff none = (λ h. cc, λ b. absurd b)
operation_has_http_iff (some o) =
    let (to, from) =
      Given-iff (o.methods ∷ o.not_methods ∷ o.paths ∷ o.not_paths ∷ o.hosts ∷ o.not_hosts ∷ []) in
    (λ h. to (ground (arith, h)), λ g. let k = from g in ground (arith, k))

operation_has_port_iff : (o : Option Operation) → (operation_has_port o ≡ true) ↔ PortOperation o
unfolding filled
operation_has_port_iff none = (λ h. cc, λ b. absurd b)
operation_has_port_iff (some o) =
    let (to, from) = Given-iff (o.ports ∷ o.not_ports ∷ []) in
    (λ h. to (ground (arith, h)), λ g. let k = from g in ground (arith, k))

condition_has_http_iff :
    (c : Option AuthCondition) → (condition_has_http c ≡ true) ↔ HttpCondition c
condition_has_http_iff none = (λ h. cc, λ b. absurd b)
condition_has_http_iff (some c) =
    let (request_to, request_from) = has_prefix_iff (to_lower c.key) (codes "request.") in
    let (filter_to, filter_from) =
      has_prefix_iff (to_lower c.key) (codes "experimental.envoy.filters.http.") in
    let (to, from) =
      or_iff _ (has_prefix (to_lower c.key) (codes "experimental.envoy.filters.http.")) in
    (
      λ h. elim (to h) [ inl k ↦ inl (request_to k) | inr k ↦ inr (filter_to k) ],
      λ h. from (elim h [ inl k ↦ inl (request_from k) | inr k ↦ inr (filter_from k) ]),
    )

condition_has_port_iff :
    (c : Option AuthCondition) → (condition_has_port c ≡ true) ↔ PortCondition c
condition_has_port_iff none = (λ h. cc, λ b. absurd b)
condition_has_port_iff (some c) = str_eq_iff (to_lower c.key) (codes "destination.port")

flags_iff :
    (a b c d : Bool)
    → (((a || b) && not (c || d)) ≡ true) ↔ (((a ≡ true) ⊎ (b ≡ true)) × (c ≡ false) × (d ≡ false))
flags_iff a b c d = (
  λ h. (ground arith, ground arith, ground arith),
  λ (h, k, l). elim h [ inl i ↦ ground arith | inr i ↦ ground arith ],
)

lowered : {P : Type 0} (b : Bool) → (b ≡ true) ↔ P → (b ≡ false) ↔ (¬ P)
lowered true (to, from) = (λ h. cc, λ n. absurd (n (to refl)))
lowered false (to, from) = (λ _ p. let k = from p in cc, λ _. refl)

pub without_port_iff :
    (rule : Option AuthRule)
    → (istio_deny_rule_has_http_attributes_without_port rule ≡ true) ↔ HttpWithoutPort rule
unfolding istio_deny_rule_has_http_attributes_without_port
without_port_iff none = (λ h. cc, λ b. absurd b)
without_port_iff (some rule) =
    let (to_to, to_from) = any_by operation_has_http HttpOperation operation_has_http_iff rule.to in
    let (when_to, when_from) =
      any_by condition_has_http HttpCondition condition_has_http_iff rule.when in
    let (port_to, port_from) =
      lowered _ (any_by operation_has_port PortOperation operation_has_port_iff rule.to) in
    let (key_to, key_from) =
      lowered _ (any_by condition_has_port PortCondition condition_has_port_iff rule.when) in
    let (split, join_flags) =
      flags_iff (any operation_has_http rule.to) (any condition_has_http rule.when)
        (any operation_has_port rule.to) (any condition_has_port rule.when) in
    (
      λ h.
          let (http, no_port, no_key) = split h in
          (
            elim http [ inl k ↦ inl (to_to k) | inr k ↦ inr (when_to k) ],
            port_to no_port,
            key_to no_key,
          ),
      λ (http, no_port, no_key). join_flags (
        elim http [ inl k ↦ inl (to_from k) | inr k ↦ inr (when_from k) ],
        port_from no_port,
        key_from no_key,
      ),
    )
