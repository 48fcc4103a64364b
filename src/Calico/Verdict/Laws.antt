-- ===== src/Calico/Verdict/Laws.antt =====
-- What the verdict depends on (internal/policy/calico/analyze.go).
use kube_net_mods.Prelude.{
  ℕ, ◌+◌, Bool, true, false, ◌||◌, ◌≡◌, ◌≢◌, refl, sym, ap, ◌∙◌, ◌⊎◌, inl, inr, List, [], ◌∷◌, ◌++◌,
  Option, Str, codes, if◌then◌else◌, str_eq, is_empty,
}
use mathlib.Core.List.{append_assoc, append-nil}
use kube_net_mods.Native.Path.{Insight}
use kube_net_mods.Calico.Value.{
  Floats, Value, null, truth, int, float, text, array, object, Item, nested_list,
}
use kube_net_mods.Calico.Paths.{Direction, direction_text, World, TestedPath, rule_matches_path}
use kube_net_mods.Calico.Order.{
  Effective, no_match, decided, passed, out_of_fuel, RuleMatch, sort_rule_matches,
  effective_calico_match_after_pass,
}
use kube_net_mods.Calico.Decision.{
  Step, near_miss, ignored, ends, continues, step_of, action_of, rules_of, rules_of_all,
  calico_policy_names,
}
use kube_net_mods.Calico.Profiles.{calico_profile_fallback_decision}
use kube_net_mods.Calico.Verdict.{
  match_verdict, decided_insight, default_deny_insight, calico_direction_decision,
}

Step-cases : (s : Step) → (s ≡ near_miss) ⊎ (s ≡ ignored) ⊎ (s ≡ ends) ⊎ (s ≡ continues)
Step-cases near_miss = inl refl
Step-cases ignored = inr (inl refl)
Step-cases ends = inr (inr (inl refl))
Step-cases continues = inr (inr (inr refl))

is_empty-middle : {A : Type 0} (x : A) (xs ys : List A) → is_empty (xs ++ x ∷ ys) ≡ false
is_empty-middle x [] ys = refl
is_empty-middle x (y ∷ xs) ys = refl

is_empty-filled : {A : Type 0} (xs : List A) → xs ≢ [] → is_empty xs ≡ false
is_empty-filled [] n = absurd (n refl)
is_empty-filled (x ∷ xs) n = refl

module _ (F : Floats) (W : World F) (direction : Direction) (tiers : List (Item F))
    (path : TestedPath) where
  abbrev step : Item F → Value F → Step
  step item (object rule) = step_of (rule_matches_path F W rule direction path) (action_of F W rule)
  step item _ = ignored

  -- The matches that a policy adds do not depend on those before it, nor on the reasons.
  rules_of-found :
      (item : Item F) (index : ℕ) (rules : List (Value F)) (found : List (RuleMatch F))
      (misses others : List Str)
      → (rules_of F W direction tiers path item index rules found misses).0
        ≡ found ++ (rules_of F W direction tiers path item index rules [] others).0
  unfolding rules_of
  rules_of-found item index [] found misses others = sym (append-nil found)
  rules_of-found item index (object rule ∷ rules) found misses others =
      elim (Step-cases (step_of (rule_matches_path F W rule direction path) (action_of F W rule))) [
        | inl e ↦ rw (e, rules_of) (rules_of-found item (index + 1) rules found _ _)
        | inr (inl e) ↦ rw (e, rules_of) (rules_of-found item (index + 1) rules found misses others)
        | inr (inr (inl e)) ↦ rw (e, rules_of) refl
        | inr (inr (inr e)) ↦
            rw (e, rules_of)
              (rules_of-found item (index + 1) rules (found ++ _ ∷ []) misses others
                ∙ append_assoc found (_ ∷ []) _
                ∙ ap (λ x. found ++ x)
                    (sym (rules_of-found item (index + 1) rules (_ ∷ []) others others)))
      ]
  rules_of-found item index (null ∷ rules) found misses others =
      rules_of-found item (index + 1) rules found misses others
  rules_of-found item index (truth b ∷ rules) found misses others =
      rules_of-found item (index + 1) rules found misses others
  rules_of-found item index (int n ∷ rules) found misses others =
      rules_of-found item (index + 1) rules found misses others
  rules_of-found item index (float n ∷ rules) found misses others =
      rules_of-found item (index + 1) rules found misses others
  rules_of-found item index (text s ∷ rules) found misses others =
      rules_of-found item (index + 1) rules found misses others
  rules_of-found item index (array vs ∷ rules) found misses others =
      rules_of-found item (index + 1) rules found misses others

  rules_of_all-found :
      (items : List (Item F)) (found : List (RuleMatch F)) (misses others : List Str)
      → (rules_of_all F W direction tiers path items found misses).0
        ≡ found ++ (rules_of_all F W direction tiers path items [] others).0
  unfolding rules_of_all
  rules_of_all-found [] found misses others = sym (append-nil found)
  rules_of_all-found (item ∷ items) found misses others =
      let rules = nested_list F item.spec (direction_text direction) in
      let start = rules_of F W direction tiers path item 1 rules in
      rules_of_all-found items (start found misses).0 (start found misses).1 (start [] others).1
      ∙ ap (λ x. x ++ (rules_of_all F W direction tiers path items [] (start [] others).1).0)
          (rules_of-found item 1 rules found misses others)
      ∙ append_assoc found (start [] others).0 _
      ∙ ap (λ x. found ++ x)
          (sym
            (rules_of_all-found items (start [] others).0 (start [] others).1 (start [] others).1))

  -- A policy without a matching rule takes nothing from the matches of the others.
  rules_of_all-quiet :
      (item : Item F)
      → (rules_of F W direction tiers path item 1
          (nested_list F item.spec (direction_text direction))
          []
          []).0
        ≡ []
      → (before after : List (Item F)) (found : List (RuleMatch F)) (misses : List Str)
      → (rules_of_all F W direction tiers path (before ++ item ∷ after) found misses).0
        ≡ (rules_of_all F W direction tiers path (before ++ after) found misses).0
  unfolding rules_of_all
  rules_of_all-quiet item quiet [] after found misses =
      let rules = nested_list F item.spec (direction_text direction) in
      let start = rules_of F W direction tiers path item 1 rules found misses in
      rules_of_all-found after start.0 start.1 []
      ∙ ap (λ x. x ++ (rules_of_all F W direction tiers path after [] []).0)
          (rules_of-found item 1 rules found misses []
            ∙ ap (λ x. found ++ x) quiet
            ∙ append-nil found)
      ∙ sym (rules_of_all-found after found misses [])
  rules_of_all-quiet item quiet (b ∷ before) after found misses =
      let rules = nested_list F b.spec (direction_text direction) in
      let start = rules_of F W direction tiers path b 1 rules found misses in
      rules_of_all-quiet item quiet before after start.0 start.1

module _ (F : Floats) (direction : Direction) (path : TestedPath) where
  Effective-cases :
      (e : Effective F)
      → (e ≡ no_match)
        ⊎ ((m : RuleMatch F) × (e ≡ decided m))
        ⊎ ((m : RuleMatch F) × (e ≡ passed m))
        ⊎ (e ≡ out_of_fuel)
  Effective-cases no_match = inl refl
  Effective-cases (decided m) = inr (inl (m, refl))
  Effective-cases (passed m) = inr (inr (inl (m, refl)))
  Effective-cases out_of_fuel = inr (inr (inr refl))

  either_status :
      (b : Bool) (i j k : Insight)
      → j.status ≡ k.status
      → (if b then i else j).status ≡ (if b then i else k).status
  either_status true i j k e = refl
  either_status false i j k e = e

  -- The names of the policies and the reasons of the misses only reach the messages.
  match_verdict-status :
      (fallback : Option Insight) (names names' misses misses' : List Str)
      (matches : List (RuleMatch F))
      → (match_verdict F direction path fallback names misses matches).status
        ≡ (match_verdict F direction path fallback names' misses' matches).status
  unfolding match_verdict default_deny_insight
  match_verdict-status fallback names names' misses misses' matches =
      elim (Effective-cases (effective_calico_match_after_pass F matches)) [
        | inl e ↦ rw (e, match_verdict) refl
        | inr (inl (m, e)) ↦
            rw (e, match_verdict)
              (either_status (str_eq m.action (codes "deny") || str_eq m.action (codes "allow"))
                (decided_insight F direction path matches m)
                (default_deny_insight F direction path names misses)
                (default_deny_insight F direction path names' misses') refl)
        | inr (inr (inl (m, e))) ↦ rw (e, match_verdict) refl
        | inr (inr (inr e)) ↦ rw (e, match_verdict) refl
      ]

module _ (F : Floats) (W : World F) where
  -- Among several policies that select the pod, one that has no rule that matches the path does not
  -- change the status of the verdict that the others come to, wherever it is listed and whatever its
  -- tier: the implicit deny at the end of its tier is not applied.
  pub calico_direction_decision_unmatched :
      (item : Item F) (before after : List (Item F)) (direction : Direction)
      (tiers profiles : List (Item F)) (path : TestedPath)
      → before ++ after ≢ []
      → (rules_of F W direction tiers path item 1
          (nested_list F item.spec (direction_text direction))
          []
          []).0
        ≡ []
      → (calico_direction_decision F W
          (before ++ item ∷ after)
          direction
          tiers
          profiles
          path).status
        ≡ (calico_direction_decision F W (before ++ after) direction tiers profiles path).status
  unfolding calico_direction_decision
  calico_direction_decision_unmatched item before after direction tiers profiles path filled quiet =
      let fallback = calico_profile_fallback_decision F W direction profiles path in
      let with_item = rules_of_all F W direction tiers path (before ++ item ∷ after) [] [] in
      let without = rules_of_all F W direction tiers path (before ++ after) [] [] in
      let more = is_empty-middle item before after in
      let rest = is_empty-filled (before ++ after) filled in
      rw (more, rest, calico_direction_decision)
        (match_verdict-status F direction path fallback
            (calico_policy_names F (before ++ item ∷ after))
            (calico_policy_names F (before ++ after)) with_item.1 without.1
            (sort_rule_matches F with_item.0)
          ∙ ap
              (λ ms.
                (match_verdict F direction path fallback (calico_policy_names F (before ++ after))
                  without.1 (sort_rule_matches F ms)).status)
              (rules_of_all-quiet F W direction tiers path item quiet before after [] []))
