-- ===== src/Istio/Traffic/Intentional/Delays.antt =====
-- The delay that istioDelayText prints (internal/check/istio_traffic.go), against the sum of seconds and
-- nanoseconds without a bound.
use kube_net_mods.Prelude.{
  ℕ, ◌+◌, ◌*◌, ◌%◌, ◌^◌, ◌<◌, ◌≡◌, Bool, true, false, ◌&&◌, inl, inr, Bool-cases, Option, none,
  some, Str, codes, ◌++◌, if◌then◌else◌, ltb, leb, arith, ℤ, pos, is_pos, ap, ◌∙◌, refl,
}
use kube_net_mods.Calico.Value.{Floats}
use kube_net_mods.Istio.Config.{Duration}
use kube_net_mods.Istio.Traffic.Numbers.{of_word, nanoseconds}
use kube_net_mods.Istio.Traffic.Intentional.{istio_delay_text}

-- A delay of so many seconds and nanoseconds, and its length in nanoseconds
abbrev pub lasting : ℕ → ℕ → Duration
lasting s n = record { seconds = pos s; nanos = pos n }

abbrev pub total : ℕ → ℕ → ℕ
total s n = s * 1_000_000_000 + n

wraps : (s n : ℕ) → total s n < 2 ^ 64 → nanoseconds (lasting s n) ≡ of_word (total s n)
unfolding nanoseconds
wraps s n h =
    let small : s % 2 ^ 64 ≡ s = omega (arith, h) in
    let rest : n % 2 ^ 64 ≡ n = omega (arith, h) in
    let whole : total s n % 2 ^ 64 ≡ total s n = omega (arith, h) in rw (small, rest, whole) refl

same_test : (a b : Bool) (x y : Str) → a ≡ b → (if a then x else y) ≡ (if b then x else y)
same_test a b x y e = rw e refl

module _ (F : Floats) (fixed_text : F.Float → Str) (duration_text : ℤ → Str) where
  -- The text of so many nanoseconds: "0s" for none, and for 2 ^ 63 and more, where int64 ends.
  abbrev pub shown : ℕ → Str
  shown t = if leb 1 t && ltb t (2 ^ 63) then duration_text (pos t) else codes "0s"

  shown_wrapped :
      (t : ℕ) → (if is_pos (of_word t) then duration_text (of_word t) else codes "0s") ≡ shown t
  shown_wrapped t = elim (Bool-cases (ltb t (2 ^ 63))) [
    | inl e ↦ rw e (same_test (ltb 0 t) (leb 1 t && true) _ _ (ground arith))
    | inr e ↦ rw e (same_test false (leb 1 t && false) _ _ (ground arith))
  ]

  -- A delay of `s` seconds and `n` nanoseconds, together t = 10 ^ 9 * s + n < 2 ^ 64 nanoseconds, is shown
  -- as the text of t nanoseconds when 0 < t < 2 ^ 63, and as "0s" otherwise: also when t is 2 ^ 63 or more,
  -- beyond int64. A fixed delay is shown so whether or not there is an exponential one; without a fixed
  -- delay an exponential one is shown so, after the words that name it.
  pub istio_delay_text_bounds :
      (s n : ℕ) (other : Option Duration)
      → total s n < 2 ^ 64
      → (istio_delay_text F fixed_text duration_text (some (lasting s n)) other ≡ shown (total s n))
        × (istio_delay_text F fixed_text duration_text none (some (lasting s n))
            ≡ codes "exponential delay around " ++ shown (total s n))
  unfolding istio_delay_text
  istio_delay_text_bounds s n other h =
      let printed =
        ap (λ d. if is_pos d then duration_text d else codes "0s") (wraps s n h)
        ∙ shown_wrapped (total s n) in
      (printed, ap (λ x. codes "exponential delay around " ++ x) printed)
