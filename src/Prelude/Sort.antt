-- ===== src/Prelude/Sort.antt =====
-- sort.Strings: texts by code point, which is the byte order of their UTF-8.
use mathlib.Core.Path.{◌≡◌, refl, ap₂, ◌∙◌}
use mathlib.Core.Logic.{◌⊎◌, inl, inr}
use mathlib.Core.Bool.{Bool, true, false}
use mathlib.Core.List.{List, [], ◌∷◌, Memᴰ, Permᴰ}
use native.Mathlib.Omega.{arith}
use kube_net_mods.Prelude.Tests.{ltb, ◌==◌, ==_iff, if◌then◌else◌, Bool-cases}
use kube_net_mods.Prelude.Lists.{All, mem_there, mem_inv}
use kube_net_mods.Prelude.Text.{Str}

unfoldable pub str_leb : Str → Str → Bool
str_leb [] t = true
str_leb (a ∷ s) [] = false
str_leb (a ∷ s) (b ∷ t) = if a == b then str_leb s t else ltb a b

pub str_leb_total : (s t : Str) → str_leb s t ≡ false → str_leb t s ≡ true
unfolding str_leb
str_leb_total [] t h = cc
str_leb_total (a ∷ s) [] h = refl
str_leb_total (a ∷ s) (b ∷ t) h = ground (arith, str_leb_total s t)

pub str_leb_antisym : (s t : Str) → str_leb s t ≡ true → str_leb t s ≡ true → s ≡ t
unfolding str_leb
str_leb_antisym [] [] h k = refl
str_leb_antisym [] (b ∷ t) h k = cc
str_leb_antisym (a ∷ s) [] h k = cc
str_leb_antisym (a ∷ s) (b ∷ t) h k = elim (Bool-cases (a == b)) [
  | inl e ↦
      let q : a ≡ b = (==_iff a b).0 e in ap₂ ◌∷◌ q (str_leb_antisym s t (rw e at h) (ground arith))
  | inr e ↦ ground arith
]

pub str_leb_trans : (s t u : Str) → str_leb s t ≡ true → str_leb t u ≡ true → str_leb s u ≡ true
unfolding str_leb
str_leb_trans [] t u h k = refl
str_leb_trans (a ∷ s) [] u h k = cc
str_leb_trans (a ∷ s) (b ∷ t) [] h k = cc
str_leb_trans (a ∷ s) (b ∷ t) (c ∷ u) h k = ground (arith, str_leb_trans s t u)

unfoldable pub insert : Str → List Str → List Str
unfolding str_leb
insert s [] = s ∷ []
insert s (t ∷ ts) = let later = t ∷ insert s ts in if str_leb s t then s ∷ t ∷ ts else later

unfoldable pub sort_strings : List Str → List Str
unfolding insert
sort_strings [] = []
sort_strings (s ∷ ss) = insert s (sort_strings ss)

-- Each text is at most every later one.
abbrev pub Sorted : List Str → Type 0
Sorted [] = Unit
Sorted (s ∷ ss) = All (λ t. str_leb s t ≡ true) ss × Sorted ss

pub All-insert : (P : Str → Type 0) (s : Str) (ts : List Str) → P s → All P ts → All P (insert s ts)
unfolding insert
All-insert P s [] p h = (p, tt)
All-insert P s (t ∷ ts) p (q, h) = elim (Bool-cases (str_leb s t)) [
  | inl e ↦ rw e (p, (q, h))
  | inr e ↦ rw e (q, All-insert P s ts p h)
]

All-le :
    (s t : Str) (ts : List Str)
    → str_leb s t ≡ true
    → All (λ u. str_leb t u ≡ true) ts
    → All (λ u. str_leb s u ≡ true) ts
All-le s t [] h a = tt
All-le s t (u ∷ ts) h (k, a) = (str_leb_trans s t u h k, All-le s t ts h a)

insert-Sorted : (s : Str) (ts : List Str) → Sorted ts → Sorted (insert s ts)
unfolding insert
insert-Sorted s [] h = (tt, tt)
insert-Sorted s (t ∷ ts) (a, h) = elim (Bool-cases (str_leb s t)) [
  | inl e ↦ rw e ((e, All-le s t ts e a), (a, h))
  | inr e ↦
      rw e (All-insert (λ u. str_leb t u ≡ true) s ts (str_leb_total s t e) a, insert-Sorted s ts h)
]

pub sort_strings-Sorted : (ss : List Str) → Sorted (sort_strings ss)
unfolding sort_strings
sort_strings-Sorted [] = tt
sort_strings-Sorted (s ∷ ss) = insert-Sorted s (sort_strings ss) (sort_strings-Sorted ss)

mem-insert : {x s : Str} (ts : List Str) → (x ≡ s) ⊎ Memᴰ x ts → Memᴰ x (insert s ts)
unfolding insert
mem-insert [] (inl e) = Memᴰ.head e
mem-insert [] (inr m) = elim m [ ]
mem-insert {x} {s} (t ∷ ts) h = elim (Bool-cases (str_leb s t)) [
  | inl e ↦ rw e (elim h [ inl q ↦ Memᴰ.head q | inr m ↦ mem_there m ])
  | inr e ↦ rw e (elim h [
    | inl q ↦ mem_there (mem-insert ts (inl q))
    | inr m ↦ elim (mem_inv m) [ inl q ↦ Memᴰ.head q | inr n ↦ mem_there (mem-insert ts (inr n)) ]
  ])
]

insert-mem : {x s : Str} (ts : List Str) → Memᴰ x (insert s ts) → (x ≡ s) ⊎ Memᴰ x ts
unfolding insert
insert-mem [] m = mem_inv m
insert-mem {x} {s} (t ∷ ts) m = elim (Bool-cases (str_leb s t)) [
  | inl e ↦ mem_inv (rw e at m)
  | inr e ↦ elim (mem_inv (rw e at m)) [
    | inl q ↦ inr (Memᴰ.head q)
    | inr n ↦ elim (insert-mem ts n) [ inl q ↦ inl q | inr k ↦ inr (mem_there k) ]
  ]
]

pub mem-sort : {x : Str} (ss : List Str) → Memᴰ x ss → Memᴰ x (sort_strings ss)
unfolding sort_strings
mem-sort [] m = m
mem-sort (s ∷ ss) m =
    mem-insert (sort_strings ss) (elim (mem_inv m) [ inl e ↦ inl e | inr n ↦ inr (mem-sort ss n) ])

pub sort-mem : {x : Str} (ss : List Str) → Memᴰ x (sort_strings ss) → Memᴰ x ss
unfolding sort_strings
sort-mem [] m = m
sort-mem (s ∷ ss) m = elim (insert-mem (sort_strings ss) m) [
  | inl e ↦ Memᴰ.head e
  | inr n ↦ mem_there (sort-mem ss n)
]

insert_comm : (s t : Str) (us : List Str) → insert s (insert t us) ≡ insert t (insert s us)
unfolding insert
insert_comm s t [] = ground (arith, str_leb_total s t, str_leb_total t s, str_leb_antisym s t)
insert_comm s t (u ∷ us) = ground (
  arith,
  insert_comm s t us,
  str_leb_total s t,
  str_leb_total t s,
  str_leb_antisym s t,
  str_leb_trans s t u,
  str_leb_trans t s u,
  str_leb_total s u,
  str_leb_total t u,
)

-- The result depends on the values only, not on the order in which they come.
pub sort_perm : {ss ts : List Str} → Permᴰ ss ts → sort_strings ss ≡ sort_strings ts
unfolding sort_strings
sort_perm Permᴰ.nil = refl
sort_perm (Permᴰ.cons e p) = ap₂ insert e (sort_perm p)
sort_perm (Permᴰ.swap {a} {b} {l} e f) =
    insert_comm a b (sort_strings l) ∙ ap₂ (λ x y. insert x (insert y (sort_strings l))) f e
sort_perm (Permᴰ.trans p q) = sort_perm p ∙ sort_perm q

pub str_leb_refl : (s : Str) → str_leb s s ≡ true
unfolding str_leb
str_leb_refl [] = refl
str_leb_refl (a ∷ s) = ground (arith, str_leb_refl s)
