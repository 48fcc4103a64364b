-- ===== src/Prelude/Lists.antt =====
-- Lists measured by native numbers, and the searches that the source writes as loops.
use Prim.Native.Nat.{ℕ, zero, suc, ◌+◌}
use mathlib.Core.Path.{◌≡◌, refl, ap, ◌∙◌}
use mathlib.Core.Logic.{◌≢◌, ◌↔◌, ◌⊎◌, inl, inr}
use mathlib.Core.Bool.{Bool, true, false, ◌&&◌, ◌||◌}
use mathlib.Core.Option.{Option, none, some}
use mathlib.Core.List.{List, [], ◌∷◌, ◌++◌, Memᴰ, Permᴰ}
use native.Mathlib.Omega.{arith}
use kube_net_mods.Prelude.Tests.{is_some, if◌then◌else◌, Bool-cases}

module _ {ℓ} {A : Type ℓ} where
  abbrev pub length : List A → ℕ
  length [] = 0
  length (x ∷ xs) = suc (length xs)

  abbrev pub is_empty : List A → Bool
  is_empty [] = true
  is_empty (x ∷ xs) = false

  abbrev pub any : (A → Bool) → List A → Bool
  any p [] = false
  any p (x ∷ xs) = p x || any p xs

  abbrev pub all : (A → Bool) → List A → Bool
  all p [] = true
  all p (x ∷ xs) = p x && all p xs

  -- The values that pass a test, in their order.
  abbrev pub keep : (A → Bool) → List A → List A
  keep p [] = []
  keep p (x ∷ xs) = let rest = keep p xs in if p x then x ∷ rest else rest

  abbrev pub find : (A → Bool) → List A → Option A
  find p [] = none
  find p (x ∷ xs) = let rest = find p xs in if p x then some x else rest

-- "There is one in the list", and "each one in the list".
abbrev pub Exists {ℓ κ} : {A : Type ℓ} → (A → Type κ) → List A → Type (ℓ ⊔ κ)
Exists {A} P xs = (x : A) × Memᴰ x xs × P x

abbrev pub Each {ℓ κ} : {A : Type ℓ} → (A → Type κ) → List A → Type (ℓ ⊔ κ)
Each {A} P xs = (x : A) → Memᴰ x xs → P x

-- A predicate by recursion, which the tactics read.
abbrev pub All {ℓ κ} : {A : Type ℓ} → (A → Type κ) → List A → Type κ
All P [] = Unit
All P (x ∷ xs) = P x × All P xs

module _ {ℓ} {A : Type ℓ} where
  pub mem_here : {x : A} {xs : List A} → Memᴰ x (x ∷ xs)
  mem_here = Memᴰ.head refl

  pub mem_there : {x y : A} {xs : List A} → Memᴰ x xs → Memᴰ x (y ∷ xs)
  mem_there = Memᴰ.tail

  pub mem_inv : {x y : A} {xs : List A} → Memᴰ x (y ∷ xs) → (x ≡ y) ⊎ Memᴰ x xs
  mem_inv (Memᴰ.head e) = inl e
  mem_inv (Memᴰ.tail m) = inr m

  pub mem-append_left : {x : A} {xs : List A} (ys : List A) → Memᴰ x xs → Memᴰ x (xs ++ ys)
  mem-append_left ys (Memᴰ.head e) = Memᴰ.head e
  mem-append_left ys (Memᴰ.tail m) = Memᴰ.tail (mem-append_left ys m)

  pub mem-append_right : {x : A} (xs : List A) {ys : List A} → Memᴰ x ys → Memᴰ x (xs ++ ys)
  mem-append_right [] m = m
  mem-append_right (x ∷ xs) m = Memᴰ.tail (mem-append_right xs m)

  pub mem-append_inv :
      {x : A} (xs : List A) {ys : List A} → Memᴰ x (xs ++ ys) → Memᴰ x xs ⊎ Memᴰ x ys
  mem-append_inv [] m = inr m
  mem-append_inv (x ∷ xs) (Memᴰ.head e) = inl (Memᴰ.head e)
  mem-append_inv (x ∷ xs) (Memᴰ.tail m) = elim (mem-append_inv xs m) [
    | inl n ↦ inl (Memᴰ.tail n)
    | inr n ↦ inr n
  ]

  pub mem_of_perm : {x : A} {xs ys : List A} → Permᴰ xs ys → Memᴰ x xs → Memᴰ x ys
  mem_of_perm Permᴰ.nil m = elim m [ ]
  mem_of_perm (Permᴰ.cons e p) (Memᴰ.head h) = Memᴰ.head (h ∙ e)
  mem_of_perm (Permᴰ.cons e p) (Memᴰ.tail m) = Memᴰ.tail (mem_of_perm p m)
  mem_of_perm (Permᴰ.swap e f) (Memᴰ.head h) = Memᴰ.tail (Memᴰ.head (h ∙ e))
  mem_of_perm (Permᴰ.swap e f) (Memᴰ.tail (Memᴰ.head h)) = Memᴰ.head (h ∙ f)
  mem_of_perm (Permᴰ.swap e f) (Memᴰ.tail (Memᴰ.tail m)) = Memᴰ.tail (Memᴰ.tail m)
  mem_of_perm (Permᴰ.trans p q) m = mem_of_perm q (mem_of_perm p m)

  any_some : (p : A → Bool) (xs : List A) → any p xs ≡ true → Exists (λ x. p x ≡ true) xs
  any_some p [] h = ground arith
  any_some p (x ∷ xs) h = elim (Bool-cases (p x)) [
    | inl hit ↦ (x, mem_here, hit)
    | inr miss ↦ let (y, m, hit) = any_some p xs (rw miss at h) in (y, mem_there m, hit)
  ]

  any_of : (p : A → Bool) {x : A} {xs : List A} → Memᴰ x xs → p x ≡ true → any p xs ≡ true
  any_of p (Memᴰ.head e) h = let h' = rw e at h in rw h'
  any_of p (Memᴰ.tail {x = y} m) h = ground (arith, any_of p m h)

  -- A loop that returns true at the first hit.
  pub any_iff : (p : A → Bool) (xs : List A) → (any p xs ≡ true) ↔ Exists (λ x. p x ≡ true) xs
  any_iff p xs = (any_some p xs, λ (x, m, h). any_of p m h)

  all_each : (p : A → Bool) {x : A} {xs : List A} → Memᴰ x xs → all p xs ≡ true → p x ≡ true
  all_each p (Memᴰ.head e) h = rw e (ground arith)
  all_each p (Memᴰ.tail {x = y} m) h = all_each p m (ground arith)

  all_of : (p : A → Bool) (xs : List A) → Each (λ x. p x ≡ true) xs → all p xs ≡ true
  all_of p [] h = refl
  all_of p (x ∷ xs) h = rw (h x mem_here) (all_of p xs (λ y m. h y (mem_there m)))

  -- A loop that returns false at the first miss.
  pub all_iff : (p : A → Bool) (xs : List A) → (all p xs ≡ true) ↔ Each (λ x. p x ≡ true) xs
  all_iff p xs = (λ h x m. all_each p m h, all_of p xs)

  -- Neither loop depends on the order in which it meets the values.
  pub any_perm : (p : A → Bool) {xs ys : List A} → Permᴰ xs ys → any p xs ≡ any p ys
  any_perm p (Permᴰ.nil) = refl
  any_perm p (Permᴰ.cons e q) = rw (e, any_perm p q)
  any_perm p (Permᴰ.swap {a} {b} {l} e f) = rw (e, f) (ground arith)
  any_perm p (Permᴰ.trans q r) = any_perm p q ∙ any_perm p r

  pub all_perm : (p : A → Bool) {xs ys : List A} → Permᴰ xs ys → all p xs ≡ all p ys
  all_perm p (Permᴰ.nil) = refl
  all_perm p (Permᴰ.cons e q) = rw (e, all_perm p q)
  all_perm p (Permᴰ.swap {a} {b} {l} e f) = rw (e, f) (ground arith)
  all_perm p (Permᴰ.trans q r) = all_perm p q ∙ all_perm p r

  mem-keep : (p : A → Bool) {x : A} {xs : List A} → Memᴰ x xs → p x ≡ true → Memᴰ x (keep p xs)
  mem-keep p (Memᴰ.head {x = y} {xs} e) h = let h' : p y ≡ true = rw e at h in rw h' (Memᴰ.head e)
  mem-keep p (Memᴰ.tail {x = y} {xs} m) h = elim (Bool-cases (p y)) [
    | inl hit ↦ rw hit (mem_there (mem-keep p m h))
    | inr miss ↦ rw miss (mem-keep p m h)
  ]

  keep-mem : (p : A → Bool) {x : A} (xs : List A) → Memᴰ x (keep p xs) → Memᴰ x xs × (p x ≡ true)
  keep-mem p [] m = elim m [ ]
  keep-mem p (y ∷ xs) m = elim (Bool-cases (p y)) [
    | inl hit ↦ elim (mem_inv (rw hit at m)) [
      | inl e ↦ (Memᴰ.head e, rw e hit)
      | inr n ↦ let (n', h) = keep-mem p xs n in (mem_there n', h)
    ]
    | inr miss ↦ let (n, h) = keep-mem p xs (rw miss at m) in (mem_there n, h)
  ]

  pub mem-keep_iff :
      (p : A → Bool) (x : A) (xs : List A) → Memᴰ x (keep p xs) ↔ (Memᴰ x xs × (p x ≡ true))
  mem-keep_iff p x xs = (keep-mem p xs, λ (m, h). mem-keep p m h)

module _ {ℓ} {A : Type ℓ} where
  -- What a loop finds is the first hit: every value before it misses.
  pub find-some :
      (p : A → Bool) (xs : List A) {x : A}
      → find p xs ≡ some x
      → (before : List A) × (after : List A) × (xs ≡ before ++ (x ∷ after))
        × (p x ≡ true)
        × (any p before ≡ false)
  find-some p [] h = ground arith
  find-some p (y ∷ xs) {x} h = elim (Bool-cases (p y)) [
    | inl hit ↦ let e : y ≡ x = ground arith in ([], xs, rw e, rw (← e) hit, refl)
    | inr miss ↦
        let (before, after, e, hit, none_before) = find-some p xs (rw miss at h) in
        (y ∷ before, after, ap (λ zs. y ∷ zs) e, hit, rw miss none_before)
  ]

  pub find-none : (p : A → Bool) (xs : List A) → (find p xs ≡ none) ↔ (any p xs ≡ false)
  find-none p [] = (λ _. refl, λ _. refl)
  find-none p (x ∷ xs) = elim (Bool-cases (p x)) [
    | inl hit ↦ rw hit (λ h. cc, λ h. cc)
    | inr miss ↦ rw miss (find-none p xs)
  ]

  pub any-append : (p : A → Bool) (xs ys : List A) → any p (xs ++ ys) ≡ (any p xs || any p ys)
  any-append p [] ys = refl
  any-append p (x ∷ xs) ys = ground (arith, any-append p xs ys)

  pub cons_ne : {x : A} {xs : List A} → (x ∷ xs) ≢ []
  cons_ne e = cc

  pub List-cases : (xs : List A) → (xs ≡ []) ⊎ ((y : A) × (ys : List A) × (xs ≡ y ∷ ys))
  List-cases [] = inl refl
  List-cases (x ∷ xs) = inr (x, xs, refl)

  -- Nothing is kept when nothing passes.
  pub keep_none : (p : A → Bool) (xs : List A) → keep p xs ≡ [] → Each (λ x. p x ≡ false) xs
  keep_none p xs e x m = elim (Bool-cases (p x)) [
    | inl hit ↦ absurd (elim (rw e at (mem-keep p m hit)) [ ])
    | inr miss ↦ miss
  ]

  pub any_none : (p : A → Bool) (xs : List A) → Each (λ x. p x ≡ false) xs → any p xs ≡ false
  any_none p [] h = refl
  any_none p (x ∷ xs) h = rw (h x mem_here) (any_none p xs (λ y m. h y (mem_there m)))

  pub none_of_any : (p : A → Bool) (xs : List A) → any p xs ≡ false → Each (λ x. p x ≡ false) xs
  none_of_any p xs h x m = elim (Bool-cases (p x)) [
    | inl hit ↦ absurd (ground (arith, any_of p m hit))
    | inr miss ↦ miss
  ]

  pub is_some-find : (p : A → Bool) (xs : List A) → is_some (find p xs) ≡ any p xs
  is_some-find p [] = refl
  is_some-find p (x ∷ xs) = elim (Bool-cases (p x)) [
    | inl hit ↦ rw hit
    | inr miss ↦ rw miss (is_some-find p xs)
  ]

  pub length-append : (xs ys : List A) → length (xs ++ ys) ≡ length xs + length ys
  length-append [] ys = omega arith
  length-append (x ∷ xs) ys = omega (arith, length-append xs ys)

  abbrev pub get_elem? : List A → ℕ → Option A
  get_elem? [] i = none
  get_elem? (x ∷ xs) zero = some x
  get_elem? (x ∷ xs) (suc i) = get_elem? xs i
