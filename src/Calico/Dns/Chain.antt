-- ===== src/Calico/Dns/Chain.antt =====
-- When the one step over a Pass of the DNS decision and the loop of the decision for a path agree
-- (internal/policy/calico/analyze.go, calicoDNSDecision and effectiveCalicoMatchAfterPass).
use kube_net_mods.Prelude.{
  ℕ, suc, ◌+◌, true, false, ◌≡◌, ◌↔◌, refl, sym, ◌∙◌, ap, inl, inr, List, ◌∷◌, some, length,
  Bool-cases, Option-cases, arith,
}
use kube_net_mods.Calico.Value.{Floats}
use kube_net_mods.Calico.Order.{
  RuleMatch, Effective, decided, is_pass, next_tier, follow, effective_calico_match_after_pass,
}
use kube_net_mods.Calico.Order.Ends.{Ordered, Ended, effective_calico_match_after_pass-Ended}
use kube_net_mods.Calico.Dns.{dns_effective}

module _ (F : Floats) (O : Ordered F) where
  -- No match of its own tier follows a Pass.
  next_tier-tail :
      (m : RuleMatch F) (ms : List (RuleMatch F)) → next_tier F (m ∷ ms) m ≡ next_tier F ms m
  next_tier-tail m ms = rw (O.irreflexive m.tier_order) refl

  -- A Pass that leads to a Pass: the one case that the step does not follow to its end.
  abbrev pub Chained : RuleMatch F → List (RuleMatch F) → Type 0
  Chained m ms =
      (n : RuleMatch F) × (is_pass F m ≡ true) × (next_tier F ms m ≡ some n) × (is_pass F n ≡ true)

  step_taken :
      (m n : RuleMatch F) (ms : List (RuleMatch F))
      → is_pass F m ≡ true
      → next_tier F ms m ≡ some n
      → dns_effective F (m ∷ ms) ≡ decided n
  unfolding dns_effective
  step_taken m n ms e f = rw (e, f) refl

  decided_no_pass :
      {matches : List (RuleMatch F)} {x : Effective F} (n : RuleMatch F)
      → Ended F O matches x
      → x ≡ decided n
      → is_pass F n ≡ false
  decided_no_pass n (Ended.by_match m at e) h = cc
  decided_no_pass n (Ended.by_pass m at e f) h = cc

  two_rounds :
      (fuel : ℕ) (m : RuleMatch F) (ms : List (RuleMatch F))
      → ¬ Chained m ms
      → dns_effective F (m ∷ ms) ≡ follow F (suc (suc fuel)) (m ∷ ms) m
  unfolding dns_effective follow
  two_rounds fuel m ms h = elim (Bool-cases (is_pass F m)) [
    | inr e ↦ rw e refl
    | inl e ↦ elim (Option-cases (next_tier F ms m)) [
      | inl f ↦ rw (e, O.irreflexive m.tier_order, f) refl
      | inr (n, f) ↦ elim (Bool-cases (is_pass F n)) [
        | inl g ↦ absurd (h (n, e, f, g))
        | inr g ↦ rw (e, O.irreflexive m.tier_order, f, g) refl
      ]
    ]
  ]

  -- The DNS decision and the path decision take the same match exactly when no Pass leads to a Pass.
  pub dns_effective_iff :
      (m : RuleMatch F) (ms : List (RuleMatch F))
      → (dns_effective F (m ∷ ms) ≡ effective_calico_match_after_pass F (m ∷ ms)) ↔ (¬ Chained m ms)
  unfolding effective_calico_match_after_pass
  dns_effective_iff m ms = (
    λ same chained.
        let (n, e, f, g) = chained in
        let flat =
          decided_no_pass n (effective_calico_match_after_pass-Ended F O m ms)
            (sym same ∙ step_taken m n ms e f) in
        cc,
    λ h.
        let more : suc (suc (length ms)) ≡ suc (length ms) + 1 = omega arith in
        two_rounds (length ms) m ms h ∙ ap (λ k. follow F k (m ∷ ms) m) more,
  )
