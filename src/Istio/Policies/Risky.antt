-- ===== src/Istio/Policies/Risky.antt =====
-- The list of riskyIstioDenyHTTPRules (internal/check/istio_authz.go).
use mathlib.Core.Option.{some-injective}
use kube_net_mods.Prelude.{
  ℕ, zero, suc, ◌+◌, true, ◌≡◌, ◌↔◌, refl, sym, ap, ◌∙◌, subst, inl, inr, List, [], ◌∷◌, Memᴰ,
  Option, some, Str, codes, digits, concat, Exists, Bool-cases, arith, and_iff, mem_here, mem_there,
  mem_inv, get_elem?, mem-append_left, mem-append_right, mem-append_inv,
}
use kube_net_mods.Cluster.{Service, Pod, Selectors}
use kube_net_mods.Istio.Rules.{AuthRule, istio_deny_rule_has_http_attributes_without_port}
use kube_net_mods.Istio.Rules.Risk.{HttpWithoutPort, without_port_iff}
use kube_net_mods.Istio.Policies.{
  AuthorizationPolicy, Action, action_eq, allow, deny, audit, custom, full_name,
  scope_selects_target, applies, risky_from, risky_istio_deny_http_rules,
}

deny_iff : (a : Action) → (action_eq a deny ≡ true) ↔ (a ≡ deny)
deny_iff allow = (λ h. cc, λ e. cc)
deny_iff deny = (λ _. refl, λ _. refl)
deny_iff audit = (λ h. cc, λ e. cc)
deny_iff custom = (λ h. cc, λ e. cc)

-- How a rule is named in the report: its policy and its number.
abbrev pub rule_text : AuthorizationPolicy → ℕ → Str
rule_text item number =
    concat (full_name item.namespace item.name ∷ codes " rule " ∷ digits number ∷ [])

-- The text names a rule of the policy that needs an HTTP attribute and leaves the port open; the rules
-- are counted from `next` on.
abbrev pub NamesRule : ℕ → AuthorizationPolicy → List (Option AuthRule) → Str → Type 0
NamesRule next item rules text =
    (k : ℕ) × (rule : Option AuthRule) × (get_elem? rules k ≡ some rule)
    × HttpWithoutPort rule
    × (text ≡ rule_text item (next + k))

renumber : (item : AuthorizationPolicy) (i j : ℕ) → i ≡ j → rule_text item i ≡ rule_text item j
renumber item i j e = ap (rule_text item) e

module _ (K : Selectors) (service : Option Service) (pods : List Pod) where
  found_rules :
      (next : ℕ) (item : AuthorizationPolicy) (rules : List (Option AuthRule)) {text : Str}
      → Memᴰ text (risky_from K service pods next item rules)
      → NamesRule next item rules text
  unfolding risky_from
  found_rules next item [] m = elim m [ ]
  found_rules next item (r ∷ rules) m =
      elim (Bool-cases (istio_deny_rule_has_http_attributes_without_port r)) [
        | inl e ↦ elim (mem_inv (rw e at m)) [
          | inl same ↦ (
            zero,
            r,
            refl,
            (without_port_iff r).0 e,
            same ∙ renumber item next (next + zero) (omega arith),
          )
          | inr later ↦
              let (k, rule, at, open_port, t) = found_rules (next + 1) item rules later in
              (
                suc k,
                rule,
                at,
                open_port,
                t ∙ renumber item (next + 1 + k) (next + suc k) (omega arith),
              )
        ]
        | inr e ↦
            let (k, rule, at, open_port, t) = found_rules (next + 1) item rules (rw e at m) in
            (
              suc k,
              rule,
              at,
              open_port,
              t ∙ renumber item (next + 1 + k) (next + suc k) (omega arith),
            )
      ]

  lists_rule :
      (next : ℕ) (item : AuthorizationPolicy) (rules : List (Option AuthRule)) (k : ℕ)
      (rule : Option AuthRule)
      → get_elem? rules k ≡ some rule
      → HttpWithoutPort rule
      → Memᴰ (rule_text item (next + k)) (risky_from K service pods next item rules)
  unfolding risky_from
  lists_rule next item [] k rule at open_port = cc
  lists_rule next item (r ∷ rules) zero rule at open_port =
      let same : r ≡ rule = some-injective r rule at in
      let e = (without_port_iff r).1 (subst HttpWithoutPort (sym same) open_port) in
      rw e (Memᴰ.head (renumber item (next + zero) next (omega arith)))
  lists_rule next item (r ∷ rules) (suc k) rule at open_port =
      let later =
        subst (λ z. Memᴰ z (risky_from K service pods (next + 1) item rules))
          (renumber item (next + 1 + k) (next + suc k) (omega arith))
          (lists_rule (next + 1) item rules k rule at open_port) in
      elim (Bool-cases (istio_deny_rule_has_http_attributes_without_port r)) [
        | inl e ↦ rw e (mem_there later)
        | inr e ↦ rw e later
      ]

  -- The text names such a rule of a DENY policy that selects the target.
  abbrev pub RiskyIn : Str → AuthorizationPolicy → Type 0
  RiskyIn text item =
      (item.action ≡ deny)
      × (scope_selects_target K item.scope item.namespace service pods ≡ true)
      × NamesRule 1 item item.rules text

  applies_iff :
      (item : AuthorizationPolicy)
      → (applies K service pods deny item ≡ true) ↔ (
          (item.action ≡ deny)
          × (scope_selects_target K item.scope item.namespace service pods ≡ true))
  applies_iff item =
      let (to, from) = deny_iff item.action in
      let chosen = scope_selects_target K item.scope item.namespace service pods in
      (
        λ h. let (d, c) = (and_iff _ chosen).0 h in (to d, c),
        λ (d, c). (and_iff _ chosen).1 (from d, c),
      )

  -- The list of risky rules names exactly the rules, by their policy and their number in it, that need
  -- an HTTP attribute (an operation that gives methods, paths or hosts, or their negations, or a
  -- condition on `request.` or an HTTP filter) and leave the port open (no operation with ports or
  -- notPorts, no condition on `destination.port`), of the DENY policies that select the target.
  pub risky_istio_deny_http_rules_iff :
      (items : List AuthorizationPolicy) (text : Str)
      → Memᴰ text (risky_istio_deny_http_rules K service pods items) ↔ Exists (RiskyIn text) items
  unfolding risky_istio_deny_http_rules
  risky_istio_deny_http_rules_iff [] text = (λ m. elim m [ ], λ (x, m, r). elim m [ ])
  risky_istio_deny_http_rules_iff (item ∷ items) text =
      let (to, from) = risky_istio_deny_http_rules_iff items text in
      let (opened, closed) = applies_iff item in
      elim (Bool-cases (applies K service pods deny item)) [
        | inl e ↦
            let (d, c) = opened e in
            rw (e, risky_istio_deny_http_rules)
              (
                λ m. elim (mem-append_inv (risky_from K service pods 1 item item.rules) m) [
                  | inl here ↦ (item, mem_here, (d, c, found_rules 1 item item.rules here))
                  | inr later ↦ let (x, n, r) = to later in (x, mem_there n, r)
                ],
                λ (x, m, (a, s, n)). elim (mem_inv m) [
                  | inl same ↦
                      let (b, t, (k, rule, at, open_port, named)) =
                        subst (RiskyIn text) same (a, s, n) in
                      mem-append_left _ (
                        subst (λ z. Memᴰ z (risky_from K service pods 1 item item.rules))
                          (sym named) (lists_rule 1 item item.rules k rule at open_port))
                  | inr later ↦ mem-append_right _ (from (x, later, (a, s, n)))
                ],
              )
        | inr e ↦
            rw (e, risky_istio_deny_http_rules)
              (
                λ m. let (x, n, r) = to m in (x, mem_there n, r),
                λ (x, m, (a, s, n)). elim (mem_inv m) [
                  | inl same ↦
                      let (b, t, o) = subst (RiskyIn text) same (a, s, n) in
                      absurd (let k = closed (b, t) in ground (arith, e, k))
                  | inr later ↦ from (x, later, (a, s, n))
                ],
              )
      ]
