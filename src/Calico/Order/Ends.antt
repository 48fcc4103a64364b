-- ===== src/Calico/Order/Ends.antt =====
-- The loop of effectiveCalicoMatchAfterPass ends (internal/policy/calico/analyze.go), and what it
-- returns.
use kube_net_mods.Prelude.{
  ℕ, zero, suc, ◌+◌, ◌≤◌, ◌<◌, true, false, ◌≡◌, sym, inl, inr, List, [], ◌∷◌, none, find-some,
  length, if◌then◌else◌, Bool-cases, Option-cases, arith, Memᴰ, mem_here, mem_inv, mem-append_right,
  subst,
}
use kube_net_mods.Calico.Value.{Floats}
use kube_net_mods.Calico.Order.{
  RuleMatch, Effective, decided, passed, is_pass, next_tier, follow,
  effective_calico_match_after_pass,
}

module _ (F : Floats) where
  open F use {Float, less}

  -- The numbers compare as Go's do, without NaN: `less` is irreflexive and transitive.
  pub record Ordered : Type 0 where
    pub irreflexive : (a : Float) → less a a ≡ false
    pub transitive : (a b c : Float) → less a b ≡ true → less b c ≡ true → less a c ≡ true

  -- How many matches are in a later tier.
  abbrev pub above : Float → List (RuleMatch F) → ℕ
  above a [] = 0
  above a (m ∷ ms) = let rest = above a ms in if less a m.tier_order then suc rest else rest

  pub above-length : (a : Float) (ms : List (RuleMatch F)) → above a ms ≤ length ms
  above-length a [] = omega arith
  above-length a (m ∷ ms) = elim (Bool-cases (less a m.tier_order)) [
    | inl e ↦ rw e (omega (arith, above-length a ms))
    | inr e ↦ rw e (omega (arith, above-length a ms))
  ]

  module _ (O : Ordered) where
    above_mono : (a b : Float) (ms : List (RuleMatch F)) → less a b ≡ true → above b ms ≤ above a ms
    above_mono a b [] h = omega arith
    above_mono a b (m ∷ ms) h = elim (Bool-cases (less b m.tier_order)) [
      | inl e ↦ rw (e, O.transitive a b m.tier_order h e) (omega (arith, above_mono a b ms h))
      | inr e ↦ elim (Bool-cases (less a m.tier_order)) [
        | inl f ↦ rw (e, f) (omega (arith, above_mono a b ms h))
        | inr f ↦ rw (e, f) (above_mono a b ms h)
      ]
    ]

    -- A step to a later tier leaves fewer matches above.
    pub above_step :
        (a : Float) (n : RuleMatch F) (ms : List (RuleMatch F))
        → Memᴰ n ms
        → less a n.tier_order ≡ true
        → above n.tier_order ms < above a ms
    above_step a n [] m h = elim m [ ]
    above_step a n (x ∷ ms) m h = elim (mem_inv m) [
      | inl e ↦
          let up : less a x.tier_order ≡ true = subst (λ z. less a z.tier_order ≡ true) e h in
          let flat : less n.tier_order x.tier_order ≡ false =
            subst (λ z. less n.tier_order z.tier_order ≡ false) e (O.irreflexive n.tier_order) in
          rw (flat, up) (omega (arith, above_mono a n.tier_order ms h))
      | inr k ↦ elim (Bool-cases (less n.tier_order x.tier_order)) [
        | inl e ↦
            rw (e, O.transitive a n.tier_order x.tier_order h e)
              (omega (arith, above_step a n ms k h))
        | inr e ↦ elim (Bool-cases (less a x.tier_order)) [
          | inl f ↦ rw (e, f) (omega (arith, above_step a n ms k h))
          | inr f ↦ rw (e, f) (above_step a n ms k h)
        ]
      ]
    ]

    -- What the loop returns: a match that is no Pass, or a Pass that no match of a later tier follows.
    pub data Ended (matches : List (RuleMatch F)) : Effective F → Type 0 where
      by_match :
          (m : RuleMatch F) → Memᴰ m matches → is_pass F m ≡ false → Ended matches (decided m)
      by_pass :
          (m : RuleMatch F)
          → Memᴰ m matches
          → is_pass F m ≡ true
          → next_tier F matches m ≡ none
          → Ended matches (passed m)

    follow-Ended :
        (fuel : ℕ) (matches : List (RuleMatch F)) (current : RuleMatch F)
        → above current.tier_order matches < fuel
        → Memᴰ current matches
        → Ended matches (follow F fuel matches current)
    unfolding follow
    follow-Ended zero matches current h m = absurd (omega (arith, h))
    follow-Ended (suc fuel) matches current h m = elim (Bool-cases (is_pass F current)) [
      | inr e ↦ rw e (by_match current m e)
      | inl e ↦ elim (Option-cases (next_tier F matches current)) [
        | inl f ↦ rw (e, f) (by_pass current m e f)
        | inr (n, f) ↦
            let (before, after, split, hit, _) =
              find-some (λ c. less current.tier_order c.tier_order) matches f in
            let inside : Memᴰ n matches =
              subst (λ z. Memᴰ n z) (sym split) (mem-append_right before mem_here) in
            rw (e, f)
              (follow-Ended fuel matches n
                (omega (arith, h, above_step current.tier_order n matches inside hit)) inside)
      ]
    ]

    -- With matches, the loop ends within its fuel: with a match that is no Pass, or with a Pass that no
    -- match of a later tier follows.
    pub effective_calico_match_after_pass-Ended :
        (m : RuleMatch F) (ms : List (RuleMatch F))
        → Ended (m ∷ ms) (effective_calico_match_after_pass F (m ∷ ms))
    unfolding effective_calico_match_after_pass
    effective_calico_match_after_pass-Ended m ms =
        follow-Ended (length (m ∷ ms) + 1) (m ∷ ms) m
          (omega (arith, above-length m.tier_order (m ∷ ms))) mem_here
