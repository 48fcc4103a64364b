-- ===== src/Calico/Order/Sorted.antt =====
-- The order that sortRuleMatches puts the matches in (internal/policy/calico/analyze.go).
use kube_net_mods.Prelude.{
  ℕ, Bool, true, false, not, ◌||◌, ◌==◌, ltb, ◌≡◌, inl, inr, List, [], ◌∷◌, Str, str_leb,
  str_leb_total, str_leb_trans, if◌then◌else◌, Bool-cases, arith, All, refl,
}
use mathlib.Core.List.{Permᴰ}
use kube_net_mods.Calico.Value.{Floats}
use kube_net_mods.Calico.Order.{RuleMatch, comes_before, insert_match, sort_rule_matches}
use kube_net_mods.Calico.Order.Ends.{Ordered}

-- One key of a comparison: where it differs it decides, otherwise the later keys do.
abbrev by_key : Bool → Bool → Bool → Bool
by_key before after rest = if before || after then before else rest

by_key_asym :
    (ab ba r s : Bool)
    → (ab ≡ true → ba ≡ false)
    → (r ≡ true → s ≡ false)
    → by_key ab ba r ≡ true
    → by_key ba ab s ≡ false
by_key_asym true true r s f g h = f refl
by_key_asym true false r s f g h = refl
by_key_asym false true r s f g h = cc
by_key_asym false false r s f g h = g h

by_key_neg :
    (ab ba bc cb ac ca r s t : Bool)
    → (ab ≡ false → bc ≡ false → ac ≡ false)
    → (cb ≡ false → ba ≡ false → ca ≡ false)
    → (ab ≡ true → ba ≡ false)
    → (bc ≡ true → cb ≡ false)
    → (ab ≡ false → ca ≡ false → cb ≡ false)
    → (ca ≡ false → bc ≡ false → ba ≡ false)
    → (r ≡ false → s ≡ false → t ≡ false)
    → by_key ab ba r ≡ false
    → by_key bc cb s ≡ false
    → by_key ac ca t ≡ false
by_key_neg ab ba bc cb ac ca r s t f g a b p q k h i = ground arith

-- The last two keys: the number of the rule and the name of the policy.
abbrev by_rule : ℕ → ℕ → Str → Str → Bool
by_rule i j s t = if not (i == j) then ltb i j else not (str_leb t s)

by_rule_asym : (i j : ℕ) (s t : Str) → by_rule i j s t ≡ true → by_rule j i t s ≡ false
by_rule_asym i j s t h = ground (arith, str_leb_total s t, str_leb_total t s)

by_rule_neg :
    (i j k : ℕ) (s t u : Str)
    → by_rule i j s t ≡ false
    → by_rule j k t u ≡ false
    → by_rule i k s u ≡ false
by_rule_neg i j k s t u h q = ground (arith, str_leb_trans u t s)

perm_refl {ℓ} : {A : Type ℓ} (xs : List A) → Permᴰ xs xs
perm_refl [] = Permᴰ.nil
perm_refl (x ∷ xs) = Permᴰ.cons refl (perm_refl xs)

module _ (F : Floats) where
  open F use {Float, less}

  -- Of two numbers that are each not below the next, the first is not below the last.
  pub record Ranked : Type 0 where
    pub order : Ordered F
    pub negative : (a b c : Float) → less a b ≡ false → less b c ≡ false → less a c ≡ false

  -- No match of a sorted list comes before an earlier one.
  abbrev pub NoneBefore : RuleMatch F → List (RuleMatch F) → Type 0
  NoneBefore a ms = All (λ b. comes_before F b a ≡ false) ms

  abbrev pub Sorted : List (RuleMatch F) → Type 0
  Sorted [] = Unit
  Sorted (m ∷ ms) = NoneBefore m ms × Sorted ms

  module _ (R : Ranked) where
    less_asym : (a b : Float) → less a b ≡ true → less b a ≡ false
    less_asym a b h = elim (Bool-cases (less b a)) [
      | inr e ↦ e
      | inl e ↦ cc (R.order.irreflexive a, R.order.transitive a b a h e)
    ]

    by_number_neg :
        (a b c : Float) (r s t : Bool)
        → (r ≡ false → s ≡ false → t ≡ false)
        → by_key (less a b) (less b a) r ≡ false
        → by_key (less b c) (less c b) s ≡ false
        → by_key (less a c) (less c a) t ≡ false
    by_number_neg a b c r s t f =
        by_key_neg (less a b) (less b a) (less b c) (less c b) (less a c) (less c a) r s t
          (R.negative a b c) (R.negative c b a) (less_asym a b) (less_asym b c)
          (λ h k. R.negative c a b k h) (λ k h. R.negative b c a h k) f

    pub comes_before_asym :
        (a b : RuleMatch F) → comes_before F a b ≡ true → comes_before F b a ≡ false
    unfolding comes_before
    comes_before_asym a b h =
        by_key_asym (less a.tier_order b.tier_order) (less b.tier_order a.tier_order) _ _
          (less_asym a.tier_order b.tier_order)
          (by_key_asym (less a.policy_order b.policy_order) (less b.policy_order a.policy_order) _ _
            (less_asym a.policy_order b.policy_order)
            (by_rule_asym a.rule_index b.rule_index a.policy b.policy))
          h

    comes_before_neg :
        (a b c : RuleMatch F)
        → comes_before F a b ≡ false
        → comes_before F b c ≡ false
        → comes_before F a c ≡ false
    unfolding comes_before
    comes_before_neg a b c = by_number_neg a.tier_order b.tier_order c.tier_order _ _ _ (
        by_number_neg a.policy_order b.policy_order c.policy_order _ _ _
          (by_rule_neg a.rule_index b.rule_index c.rule_index a.policy b.policy c.policy))

    NoneBefore-trans :
        (a b : RuleMatch F) (ms : List (RuleMatch F))
        → comes_before F b a ≡ false
        → NoneBefore b ms
        → NoneBefore a ms
    NoneBefore-trans a b [] h n = tt
    NoneBefore-trans a b (m ∷ ms) h (k, n) =
        (comes_before_neg m b a k h, NoneBefore-trans a b ms h n)

    NoneBefore-insert :
        (a m : RuleMatch F) (ms : List (RuleMatch F))
        → comes_before F m a ≡ false
        → NoneBefore a ms
        → NoneBefore a (insert_match F m ms)
    unfolding insert_match
    NoneBefore-insert a m [] h n = (h, tt)
    NoneBefore-insert a m (b ∷ ms) h (k, n) = elim (Bool-cases (comes_before F b m)) [
      | inl e ↦ rw e (k, NoneBefore-insert a m ms h n)
      | inr e ↦ rw e (h, (k, n))
    ]

    insert_match-Sorted :
        (m : RuleMatch F) (ms : List (RuleMatch F)) → Sorted ms → Sorted (insert_match F m ms)
    unfolding insert_match
    insert_match-Sorted m [] h = (tt, tt)
    insert_match-Sorted m (b ∷ ms) (n, h) = elim (Bool-cases (comes_before F b m)) [
      | inl e ↦
          rw e (NoneBefore-insert b m ms (comes_before_asym b m e) n, insert_match-Sorted m ms h)
      | inr e ↦ rw e ((e, NoneBefore-trans m b ms e n), (n, h))
    ]

    insert_match-perm :
        (m : RuleMatch F) (ms : List (RuleMatch F)) → Permᴰ (insert_match F m ms) (m ∷ ms)
    unfolding insert_match
    insert_match-perm m [] = Permᴰ.cons refl Permᴰ.nil
    insert_match-perm m (b ∷ ms) = elim (Bool-cases (comes_before F b m)) [
      | inl e ↦ rw e (Permᴰ.trans (Permᴰ.cons refl (insert_match-perm m ms)) (Permᴰ.swap refl refl))
      | inr e ↦ rw e (perm_refl (m ∷ b ∷ ms))
    ]

    sort-Sorted : (ms : List (RuleMatch F)) → Sorted (sort_rule_matches F ms)
    unfolding sort_rule_matches
    sort-Sorted [] = tt
    sort-Sorted (m ∷ ms) = insert_match-Sorted m (sort_rule_matches F ms) (sort-Sorted ms)

    sort-perm : (ms : List (RuleMatch F)) → Permᴰ (sort_rule_matches F ms) ms
    unfolding sort_rule_matches
    sort-perm [] = Permᴰ.nil
    sort-perm (m ∷ ms) =
        Permᴰ.trans (insert_match-perm m (sort_rule_matches F ms)) (Permᴰ.cons refl (sort-perm ms))

    -- The matches are put in the order of their tiers, then of their policies, then of their rules, then of
    -- the policies' names: the result holds the same matches, and none comes before an earlier one.
    pub sort_rule_matches-Sorted :
        (ms : List (RuleMatch F))
        → Permᴰ (sort_rule_matches F ms) ms × Sorted (sort_rule_matches F ms)
    sort_rule_matches-Sorted ms = (sort-perm ms, sort-Sorted ms)
