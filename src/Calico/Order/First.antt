-- ===== src/Calico/Order/First.antt =====
-- Which match decides (internal/policy/calico/analyze.go): sortRuleMatches and
-- effectiveCalicoMatchAfterPass on the matches in any order.
use mathlib.Core.List.{Permᴰ}
use mathlib.Core.List.Permᴰ
use mathlib.Core.Option.{some-injective}
use kube_net_mods.Prelude.{
  ℕ, zero, suc, ◌+◌, ◌<◌, Bool, true, false, ◌≡◌, sym, subst, inl, inr, List, [], ◌∷◌, some,
  str_leb, find, find-some, find-none, none_of_any, length, Bool-cases, Option-cases, arith, Memᴰ,
  mem_here, mem_inv, mem-append_right, mem_of_perm, Each,
}
use kube_net_mods.Calico.Value.{Floats}
use kube_net_mods.Calico.Order.{
  RuleMatch, comes_before, sort_rule_matches, Effective, decided, passed, is_pass, next_tier,
  follow, effective_calico_match_after_pass,
}
use kube_net_mods.Calico.Order.Ends.{above, above-length, above_step}
use kube_net_mods.Calico.Order.Sorted.{
  Ranked, NoneBefore, Sorted, comes_before_asym, sort_rule_matches-Sorted,
}

module _ (F : Floats) where
  open F use {Float, less}

  -- Neither number is below the other.
  abbrev pub Level : Float → Float → Type 0
  Level x y = (less x y ≡ false) × (less y x ≡ false)

  -- Calico's order of matches: by tier, within it by policy, then by the rule's place, then by name.
  pub data Precedes (a b : RuleMatch F) : Type 0 where
    by_tier : less a.tier_order b.tier_order ≡ true → Precedes a b
    by_policy :
        Level a.tier_order b.tier_order → less a.policy_order b.policy_order ≡ true → Precedes a b
    by_rule :
        Level a.tier_order b.tier_order
        → Level a.policy_order b.policy_order
        → a.rule_index < b.rule_index
        → Precedes a b
    by_name :
        Level a.tier_order b.tier_order
        → Level a.policy_order b.policy_order
        → a.rule_index ≡ b.rule_index
        → str_leb b.policy a.policy ≡ false
        → Precedes a b

  Precedes-comes_before : (a b : RuleMatch F) → Precedes a b → comes_before F a b ≡ true
  unfolding comes_before
  Precedes-comes_before a b (by_tier t) = ground arith
  Precedes-comes_before a b (by_policy (t, u) p) = ground arith
  Precedes-comes_before a b (by_rule (t, u) (p, q) r) = ground arith
  Precedes-comes_before a b (by_name (t, u) (p, q) r n) = ground arith

  not_Precedes : (a b : RuleMatch F) → comes_before F a b ≡ false → ¬ Precedes a b
  not_Precedes a b h p = let k = Precedes-comes_before a b p in cc

  -- The match that the evaluation of the matches goes to from a match: itself, unless it is a Pass; then
  -- the first match of the later tiers, and from there on.
  pub data Follows (ms : List (RuleMatch F)) : RuleMatch F → Effective F → Type 0 where
    stays : (m : RuleMatch F) → is_pass F m ≡ false → Follows ms m (decided m)
    last :
        (m : RuleMatch F)
        → is_pass F m ≡ true
        → Each (λ b. less m.tier_order b.tier_order ≡ false) ms
        → Follows ms m (passed m)
    goes_on :
        (m n : RuleMatch F) {e : Effective F}
        → is_pass F m ≡ true
        → Memᴰ n ms
        → less m.tier_order n.tier_order ≡ true
        → Each (λ b. ¬ ((less m.tier_order b.tier_order ≡ true) × Precedes b n)) ms
        → Follows ms n e
        → Follows ms m e

  NoneBefore-Each :
      (a : RuleMatch F) (ms : List (RuleMatch F))
      → NoneBefore F a ms
      → Each (λ b. comes_before F b a ≡ false) ms
  NoneBefore-Each a [] h b m = elim m [ ]
  NoneBefore-Each a (x ∷ ms) (h, rest) b m = elim (mem_inv m) [
    | inl same ↦ rw same h
    | inr later ↦ NoneBefore-Each a ms rest b later
  ]

  module _ (R : Ranked F) where
    comes_before_irreflexive : (a : RuleMatch F) → comes_before F a a ≡ false
    comes_before_irreflexive a = elim (Bool-cases (comes_before F a a)) [
      | inl e ↦ comes_before_asym F R a a e
      | inr e ↦ e
    ]

    head_first :
        (a : RuleMatch F) (ms : List (RuleMatch F))
        → NoneBefore F a ms
        → Each (λ b. comes_before F b a ≡ false) (a ∷ ms)
    head_first a ms h b m = elim (mem_inv m) [
      | inl same ↦ rw same (comes_before_irreflexive a)
      | inr later ↦ NoneBefore-Each a ms h b later
    ]

    -- What is found in a sorted list comes first among what could be.
    found_first :
        (p : RuleMatch F → Bool) (ms : List (RuleMatch F)) {n : RuleMatch F}
        → Sorted F ms
        → find p ms ≡ some n
        → Each (λ b. ¬ ((p b ≡ true) × Precedes b n)) ms
    found_first p [] {n} s f b m both = elim m [ ]
    found_first p (x ∷ ms) {n} (h, s) f b m (hit, before) = elim (Bool-cases (p x)) [
      | inl e ↦
          let same : x ≡ n = some-injective x n (rw e at f) in
          not_Precedes b x (head_first x ms h b m) (subst (Precedes b) (sym same) before)
      | inr e ↦ elim (mem_inv m) [
        | inl same ↦ cc
        | inr later ↦ found_first p ms s (rw e at f) b later (hit, before)
      ]
    ]

    module _ (ms sorted : List (RuleMatch F)) (same : Permᴰ sorted ms) (s : Sorted F sorted) where
      follow-Follows :
          (fuel : ℕ) (current : RuleMatch F)
          → above F current.tier_order sorted < fuel
          → Memᴰ current sorted
          → Follows ms current (follow F fuel sorted current)
      unfolding follow
      follow-Follows zero current h m = absurd (omega (arith, h))
      follow-Follows (suc fuel) current h m = elim (Bool-cases (is_pass F current)) [
        | inr e ↦ rw e (stays current e)
        | inl e ↦ elim (Option-cases (next_tier F sorted current)) [
          | inl f ↦
              let miss =
                none_of_any (λ c. less current.tier_order c.tier_order) sorted
                  ((find-none (λ c. less current.tier_order c.tier_order) sorted).0 f) in
              rw (e, f) (last current e (λ b k. miss b (mem_of_perm (Permᴰ.symm same) k)))
          | inr (n, f) ↦
              let (before, after, split, hit, _) =
                find-some (λ c. less current.tier_order c.tier_order) sorted f in
              let inside : Memᴰ n sorted =
                subst (λ z. Memᴰ n z) (sym split) (mem-append_right before mem_here) in
              let first = found_first (λ c. less current.tier_order c.tier_order) sorted s f in
              rw (e, f)
                (goes_on current n e (mem_of_perm same inside) hit
                  (λ b k. first b (mem_of_perm (Permᴰ.symm same) k))
                  (follow-Follows fuel n
                    (omega (arith, h, above_step F R.order current.tier_order n sorted inside hit))
                    inside))
        ]
      ]

    begins_with_head :
        (m : RuleMatch F) (ms sorted : List (RuleMatch F))
        → Permᴰ sorted (m ∷ ms)
        → Sorted F sorted
        → (first : RuleMatch F) × Memᴰ first (m ∷ ms)
          × Each (λ b. ¬ Precedes b first) (m ∷ ms)
          × Follows (m ∷ ms) first (effective_calico_match_after_pass F sorted)
    unfolding effective_calico_match_after_pass
    begins_with_head m ms [] same s = absurd (elim (mem_of_perm (Permᴰ.symm same) mem_here) [ ])
    begins_with_head m ms (x ∷ xs) same (h, s) = (
      x,
      mem_of_perm same mem_here,
      λ b k. not_Precedes b x (head_first x xs h b (mem_of_perm (Permᴰ.symm same) k)),
      follow-Follows (m ∷ ms) (x ∷ xs) same (h, s) (length (x ∷ xs) + 1) x
          (omega (arith, above-length F x.tier_order (x ∷ xs))) mem_here,
    )

    -- When the orders of tiers and policies compare as numbers do (strictly and weakly, no NaN), the match
    -- that decides among one or more in any order is found from one that no other precedes, by tier,
    -- then policy, then the rule's place, then name, going on from each Pass to a first match, so
    -- ordered, of the later tiers: the result is the match so reached that is no Pass, or a Pass that no
    -- match of a later tier follows.
    pub effective_calico_match_after_pass-sort_rule_matches :
        (m : RuleMatch F) (ms : List (RuleMatch F))
        → (first : RuleMatch F) × Memᴰ first (m ∷ ms)
          × Each (λ b. ¬ Precedes b first) (m ∷ ms)
          × Follows
              (m ∷ ms)
              first
              (effective_calico_match_after_pass F (sort_rule_matches F (m ∷ ms)))
    effective_calico_match_after_pass-sort_rule_matches m ms =
        let (same, s) = sort_rule_matches-Sorted F R (m ∷ ms) in
        begins_with_head m ms (sort_rule_matches F (m ∷ ms)) same s
