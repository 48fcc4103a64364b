-- ===== src/Prelude/Ordered.antt =====
-- Strictly increasing lists of texts: what a sort makes of distinct texts. Such a list is determined
-- by its members.
use mathlib.Core.Path.{◌≡◌, refl, sym, ap₂, ◌∙◌}
use mathlib.Core.Logic.{◌≢◌, inl, inr}
use mathlib.Core.Bool.{true}
use mathlib.Core.List.{List, [], ◌∷◌, Memᴰ}
use kube_net_mods.Prelude.Tests.{Bool-cases}
use kube_net_mods.Prelude.Lists.{All, mem_here, mem_there, mem_inv}
use kube_net_mods.Prelude.Text.{Str}
use kube_net_mods.Prelude.Sort.{
  str_leb, str_leb_total, str_leb_trans, str_leb_antisym, str_leb_refl, insert, sort_strings,
  All-insert, sort-mem,
}

abbrev pub Below : Str → Str → Type 0
Below s t = (str_leb s t ≡ true) × (s ≢ t)

abbrev pub Increasing : List Str → Type 0
Increasing [] = Unit
Increasing (s ∷ ss) = All (Below s) ss × Increasing ss

abbrev pub NoRepeat : List Str → Type 0
NoRepeat [] = Unit
NoRepeat (s ∷ ss) = (¬ Memᴰ s ss) × NoRepeat ss

All-mem : (P : Str → Type 0) (ss : List Str) {x : Str} → All P ss → Memᴰ x ss → P x
All-mem P [] h m = elim m [ ]
All-mem P (s ∷ ss) (p, h) m = elim (mem_inv m) [ inl e ↦ rw e p | inr n ↦ All-mem P ss h n ]

All-Below :
    (s t : Str) (ts : List Str)
    → str_leb s t ≡ true
    → ¬ Memᴰ s ts
    → All (Below t) ts
    → All (Below s) ts
All-Below s t [] h n a = tt
All-Below s t (u ∷ ts) h n ((k, _), a) =
    ((str_leb_trans s t u h k, λ e. n (Memᴰ.head e)), All-Below s t ts h (λ m. n (mem_there m)) a)

insert-Increasing :
    (s : Str) (ts : List Str) → ¬ Memᴰ s ts → Increasing ts → Increasing (insert s ts)
unfolding insert
insert-Increasing s [] n h = (tt, tt)
insert-Increasing s (t ∷ ts) n (a, h) = elim (Bool-cases (str_leb s t)) [
  | inl e ↦ rw e (((e, λ q. n (Memᴰ.head q)), All-Below s t ts e (λ m. n (mem_there m)) a), (a, h))
  | inr e ↦ rw e (
    All-insert (Below t) s ts (str_leb_total s t e, λ q. n (Memᴰ.head (sym q))) a,
    insert-Increasing s ts (λ m. n (mem_there m)) h,
  )
]

pub sort-Increasing : (ss : List Str) → NoRepeat ss → Increasing (sort_strings ss)
unfolding sort_strings
sort-Increasing [] h = tt
sort-Increasing (s ∷ ss) (n, h) =
    insert-Increasing s (sort_strings ss) (λ m. n (sort-mem ss m)) (sort-Increasing ss h)

-- The head of such a list is at most each of its members.
head_least :
    (s : Str) (ss : List Str) {x : Str} → Increasing (s ∷ ss) → Memᴰ x (s ∷ ss) → str_leb s x ≡ true
head_least s ss (a, h) m = elim (mem_inv m) [
  | inl e ↦ rw e (str_leb_refl s)
  | inr n ↦ (All-mem (Below s) ss a n).0
]

tail_members :
    (s t : Str) (ss ts : List Str)
    → s ≡ t
    → All (Below s) ss
    → ((x : Str) → Memᴰ x (s ∷ ss) → Memᴰ x (t ∷ ts))
    → (x : Str) → Memᴰ x ss
    → Memᴰ x ts
tail_members s t ss ts e a f x m = elim (mem_inv (f x (mem_there m))) [
  | inl q ↦ absurd ((All-mem (Below s) ss a m).1 (e ∙ sym q))
  | inr n ↦ n
]

pub Increasing-ext :
    (ss ts : List Str)
    → Increasing ss
    → Increasing ts
    → ((x : Str) → Memᴰ x ss → Memᴰ x ts)
    → ((x : Str) → Memᴰ x ts → Memᴰ x ss)
    → ss ≡ ts
Increasing-ext [] [] hs ht f g = refl
Increasing-ext [] (t ∷ ts) hs ht f g = absurd (elim (g t mem_here) [ ])
Increasing-ext (s ∷ ss) [] hs ht f g = absurd (elim (f s mem_here) [ ])
Increasing-ext (s ∷ ss) (t ∷ ts) hs ht f g =
    let e =
      str_leb_antisym s t (head_least s ss hs (g t mem_here)) (head_least t ts ht (f s mem_here)) in
    ap₂ ◌∷◌ e (
      Increasing-ext ss ts hs.1 ht.1 (tail_members s t ss ts e hs.0 f)
        (tail_members t s ts ss (sym e) ht.0 g))
