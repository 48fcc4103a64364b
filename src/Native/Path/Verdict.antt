-- ===== src/Native/Path/Verdict.antt =====
-- The verdicts of analyzeNativeEgress and analyzeNativeIngress (internal/check/service_policy.go):
-- a path passes unless a policy isolates its end and none of the isolating policies allows it.
use kube_net_mods.Prelude.{
  ◌+◌, Bool, true, false, ◌≡◌, refl, ◌∙◌, ◌↔◌, ◌⊎◌, inl, inr, List, [], ◌∷◌, Str, keep, map, Exists,
  Each, mem_here, mem-keep_iff, keep_none, List-cases, arith,
}
use kube_net_mods.Model.{Report, pass, warn, count_by_status, add, add_categorized, diagnose}
use kube_net_mods.Model.Laws.{count_by_status-add_categorized, count_by_status-diagnose}
use kube_net_mods.Prelude.{Option, ℤ}
use kube_net_mods.Cluster.{Pod, Namespace, Service, Selectors, Netip}
use kube_net_mods.Native.Rules.{NetworkPolicy}
use kube_net_mods.Native.Path.{
  isolates_source, allows_target, analyze_native_egress, egress_verdict, isolates_target,
  allows_source, analyze_native_ingress, ingress_verdict,
}

-- One more PASS and no diagnosis, or one more WARN.
pub record Passed (r s : Report) : Type 0 where
  pub passes : count_by_status s pass ≡ count_by_status r pass + 1
  pub warns : count_by_status s warn ≡ count_by_status r warn
  pub diagnoses : s.diagnoses ≡ r.diagnoses

pub record Warned (r s : Report) : Type 0 where
  pub passes : count_by_status s pass ≡ count_by_status r pass
  pub warns : count_by_status s warn ≡ count_by_status r warn + 1

add-Passed : (r : Report) (layer check message : Str) → Passed r (add r layer check pass message)
unfolding add
add-Passed r layer check message = record {
  passes = count_by_status-add_categorized r layer check pass [] message pass;
  warns = count_by_status-add_categorized r layer check pass [] message warn;
  diagnoses = unfold add_categorized in refl;
}

diagnose-Warned :
    (r : Report) (layer check category message m : Str)
    → Warned r (diagnose (add_categorized r layer check warn category message) m)
diagnose-Warned r layer check category message m = record {
  passes =
      count_by_status-diagnose _ m pass
      ∙ count_by_status-add_categorized r layer check warn category message pass;
  warns =
      count_by_status-diagnose _ m warn
      ∙ count_by_status-add_categorized r layer check warn category message warn;
}

not-both : {r s : Report} → Passed r s → ¬ Warned r s
not-both p w = omega (arith, p.passes, w.passes)

-- Both analyses have this shape: the policies that isolate the end, and among them those that allow.
module _ {P : Type 0} (isolates allows : P → Bool) where
  abbrev pub Open : List P → Type 0
  Open ps =
      Each (λ p. isolates p ≡ false) ps ⊎ Exists (λ p. (isolates p ≡ true) × (allows p ≡ true)) ps

  abbrev pub Blocked : List P → Type 0
  Blocked ps =
      Exists (λ p. isolates p ≡ true) ps × Each (λ p. isolates p ≡ true → allows p ≡ false) ps

  Open-not-Blocked : (ps : List P) → Open ps → ¬ Blocked ps
  Open-not-Blocked ps (inl none_isolates) ((p, m, e), _) = ground (arith, none_isolates p m)
  Open-not-Blocked ps (inr (p, m, (e, a))) (_, none_allows) = ground (arith, none_allows p m e)

  module _ (name : P → Str) (r : Report) (verdict : List P → List Str → Report)
      (none_case : (ns : List Str) → Passed r (verdict [] ns))
      (open_case : (p : P) (ps : List P) (n : Str) (ns : List Str)
        → Passed r (verdict (p ∷ ps) (n ∷ ns)))
      (blocked_case : (p : P) (ps : List P) → Warned r (verdict (p ∷ ps) [])) where
    outcome : List P → Report
    outcome ps = verdict (keep isolates ps) (map name (keep allows (keep isolates ps)))

    Passed-iffs :
        (ps : List P)
        → Passed r (outcome ps)
        → Open ps
        → (Warned r (outcome ps) ↔ Blocked ps) × (Passed r (outcome ps) ↔ Open ps)
    Passed-iffs ps p o =
        ((λ w. absurd (not-both p w), λ b. absurd (Open-not-Blocked ps o b)), (λ _. o, λ _. p))

    Warned-iffs :
        (ps : List P)
        → Warned r (outcome ps)
        → Blocked ps
        → (Warned r (outcome ps) ↔ Blocked ps) × (Passed r (outcome ps) ↔ Open ps)
    Warned-iffs ps w b =
        ((λ _. b, λ _. w), (λ p. absurd (not-both p w), λ o. absurd (Open-not-Blocked ps o b)))

    outcome_iffs :
        (ps : List P) → (Warned r (outcome ps) ↔ Blocked ps) × (Passed r (outcome ps) ↔ Open ps)
    outcome_iffs ps = elim (List-cases (keep isolates ps)) [
      | inl e ↦
          Passed-iffs ps (unfold outcome in (rw e (none_case _))) (inl (keep_none isolates ps e))
      | inr (q, qs, e) ↦ elim (List-cases (keep allows (keep isolates ps))) [
        | inl f ↦ Warned-iffs ps (unfold outcome in (rw (f, e) (blocked_case q qs))) (
          (let (m, h) = (mem-keep_iff isolates q ps).0 (rw e mem_here) in (q, m, h)),
          λ p m h. keep_none allows (keep isolates ps) f p ((mem-keep_iff isolates p ps).1 (m, h)),
        )
        | inr (a, as', f) ↦
            let (n, allowed) = (mem-keep_iff allows a (keep isolates ps)).0 (rw f mem_here) in
            let (m, isolated) = (mem-keep_iff isolates a ps).0 n in
            Passed-iffs ps (unfold outcome in (rw (f, e) (open_case q qs (name a) (map name as'))))
              (inr (a, m, (isolated, allowed)))
      ]
    ]

module _ (K : Selectors) (N : Netip) where
  -- The egress analysis adds one WARN exactly when some policy isolates the source for egress and no
  -- isolating policy has a rule that allows the target; it adds one PASS and diagnoses nothing exactly
  -- when no policy isolates the source, or one that does allows the target.
  pub analyze_native_egress_verdict :
      (source : Pod) (target_namespace : Namespace) (targets : List Pod) (service : Option Service)
      (ports : List ℤ) (r : Report) (policies : List (NetworkPolicy K))
      → (Warned r
            (analyze_native_egress K N source target_namespace targets service ports r policies)
          ↔ Blocked
              (isolates_source K N source target_namespace targets service ports)
              (allows_target K N source target_namespace targets service ports)
              policies)
        × (Passed r
              (analyze_native_egress K N source target_namespace targets service ports r policies)
            ↔ Open
                (isolates_source K N source target_namespace targets service ports)
                (allows_target K N source target_namespace targets service ports)
                policies)
  unfolding analyze_native_egress outcome
  analyze_native_egress_verdict source tns targets service ports r policies =
      outcome_iffs (isolates_source K N source tns targets service ports)
        (allows_target K N source tns targets service ports) (λ p. p.name) r
        (egress_verdict K N source tns targets service ports r) (λ ns. add-Passed r _ _ _)
        (λ p ps n ns. add-Passed r _ _ _) (λ p ps. diagnose-Warned r _ _ _ _ _) policies

  -- The ingress analysis adds one WARN exactly when some policy isolates a target pod for ingress and
  -- no isolating policy has a rule that allows the source; it adds one PASS and diagnoses nothing
  -- exactly when no policy isolates a target, or one that does allows the source.
  pub analyze_native_ingress_verdict :
      (source : Pod) (source_namespace : Namespace) (targets : List Pod) (service : Option Service)
      (ports : List ℤ) (r : Report) (policies : List (NetworkPolicy K))
      → (Warned r
            (analyze_native_ingress K N source source_namespace targets service ports r policies)
          ↔ Blocked
              (isolates_target K N source source_namespace targets service ports)
              (allows_source K N source source_namespace targets service ports)
              policies)
        × (Passed r
              (analyze_native_ingress K N source source_namespace targets service ports r policies)
            ↔ Open
                (isolates_target K N source source_namespace targets service ports)
                (allows_source K N source source_namespace targets service ports)
                policies)
  unfolding analyze_native_ingress outcome
  analyze_native_ingress_verdict source sns targets service ports r policies =
      outcome_iffs (isolates_target K N source sns targets service ports)
        (allows_source K N source sns targets service ports) (λ p. p.name) r
        (ingress_verdict K N source sns targets service ports r) (λ ns. add-Passed r _ _ _)
        (λ p ps n ns. add-Passed r _ _ _) (λ p ps. diagnose-Warned r _ _ _ _ _) policies
