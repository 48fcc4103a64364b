-- ===== src/Native/Names.antt =====
-- uniqueStrings and FormatPorts of internal/policy/native/native.go. The same function stands in
-- internal/runtime/runtime.go, internal/policy/calico/analyze.go and internal/policy/cilium/analyze.go.
use mathlib.Core.List.{append_assoc, append-nil}
use kube_net_mods.Prelude.{
  Bool, false, ◌||◌, ◌≡◌, refl, sym, ap, ◌∙◌, ◌↔◌, inl, inr, List, [], ◌∷◌, ◌++◌, map, Memᴰ, Str,
  codes, str_eq, str_eq_iff, any, is_empty, if◌then◌else◌, Bool-cases, ℤ, decimal, join,
  sort_strings, sort-mem, mem-sort, Increasing, NoRepeat, sort-Increasing, Increasing-ext,
  str_eq_refl, arith, mem_there, mem_inv,
}

-- The map `seen`, by its keys.
abbrev was_seen : List Str → Str → Bool
was_seen seen value = any (λ s. str_eq s value) seen

-- The loop, with `seen` and `out`.
collect : List Str → List Str → List Str → List Str
collect seen out [] = out
collect seen out (value ∷ values) =
    let skipped = collect seen out values in
    let taken = collect (value ∷ seen) (out ++ value ∷ []) values in
    if is_empty value || was_seen seen value then skipped else taken

unfoldable pub unique_strings : List Str → List Str
unfolding collect sort_strings str_eq
unique_strings values = sort_strings (collect [] [] values)

unfoldable pub format_ports : List ℤ → Str
unfolding unique_strings decimal join
format_ports [] = codes "(unknown)"
format_ports (p ∷ ports) = join (unique_strings (map decimal (p ∷ ports))) (codes ", ")

-- The same loop as a recursion: the values that are new and not empty.
fresh : List Str → List Str → List Str
fresh seen [] = []
fresh seen (value ∷ values) =
    let skipped = fresh seen values in
    let taken = value ∷ fresh (value ∷ seen) values in
    if is_empty value || was_seen seen value then skipped else taken

collect-eq-fresh : (seen out values : List Str) → collect seen out values ≡ out ++ fresh seen values
unfolding collect fresh
collect-eq-fresh seen out [] = sym (append-nil out)
collect-eq-fresh seen out (v ∷ vs) = elim (Bool-cases (is_empty v || was_seen seen v)) [
  | inl skip ↦ rw skip (collect-eq-fresh seen out vs)
  | inr take ↦
      rw take (collect-eq-fresh (v ∷ seen) (out ++ v ∷ []) vs ∙ append_assoc out (v ∷ []) _)
]

-- A value that the loop takes is new, not empty and among the values; and the other way round.
abbrev Fresh : List Str → List Str → Str → Type 0
Fresh seen values x = Memᴰ x values × (is_empty x ≡ false) × (was_seen seen x ≡ false)

fresh_sound : (seen values : List Str) {x : Str} → Memᴰ x (fresh seen values) → Fresh seen values x
unfolding fresh
fresh_sound seen [] m = elim m [ ]
fresh_sound seen (v ∷ vs) {x} m = elim (Bool-cases (is_empty v || was_seen seen v)) [
  | inl skip ↦ let (n, e, k) = fresh_sound seen vs (rw skip at m) in (mem_there n, e, k)
  | inr take ↦ elim (mem_inv (rw take at m)) [
    | inl q ↦ (Memᴰ.head q, rw q (ground arith), rw q (ground arith))
    | inr n ↦ let (n', e, k) = fresh_sound (v ∷ seen) vs n in (mem_there n', e, ground arith)
  ]
]

fresh_complete :
    (seen values : List Str) {x : Str} → Fresh seen values x → Memᴰ x (fresh seen values)
unfolding fresh
fresh_complete seen [] (m, _, _) = m
fresh_complete seen (v ∷ vs) {x} (m, e, k) = elim (Bool-cases (is_empty v || was_seen seen v)) [
  | inl skip ↦ rw skip (elim (mem_inv m) [
    | inl q ↦ absurd (ground (arith, q))
    | inr n ↦ fresh_complete seen vs (n, e, k)
  ])
  | inr take ↦ rw take (elim (Bool-cases (str_eq v x)) [
    | inl same ↦ Memᴰ.head (sym ((str_eq_iff v x).0 same))
    | inr other ↦ elim (mem_inv m) [
      | inl q ↦ Memᴰ.head q
      | inr n ↦ mem_there (fresh_complete (v ∷ seen) vs (n, e, ground arith))
    ]
  ])
]

fresh-NoRepeat : (seen values : List Str) → NoRepeat (fresh seen values)
unfolding fresh
fresh-NoRepeat seen [] = tt
fresh-NoRepeat seen (v ∷ vs) = elim (Bool-cases (is_empty v || was_seen seen v)) [
  | inl skip ↦ rw skip (fresh-NoRepeat seen vs)
  | inr take ↦ rw take (
    λ m. ground (arith, (fresh_sound (v ∷ seen) vs m).2, str_eq_refl v),
    fresh-NoRepeat (v ∷ seen) vs,
  )
]

unique-eq : (values : List Str) → unique_strings values ≡ sort_strings (fresh [] values)
unfolding unique_strings
unique-eq values = ap sort_strings (collect-eq-fresh [] [] values)

-- The result holds the values that are not empty, and nothing else.
pub mem-unique_iff :
    (values : List Str) (x : Str)
    → Memᴰ x (unique_strings values) ↔ (Memᴰ x values × (is_empty x ≡ false))
mem-unique_iff values x = (
  λ m. let (n, e, _) = fresh_sound [] values (sort-mem _ (rw (unique-eq values) at m)) in (n, e),
  λ (m, e). rw (unique-eq values) (mem-sort _ (fresh_complete [] values (m, e, refl))),
)

-- The result is strictly increasing: sorted, and without repetitions.
pub unique_strings-Increasing : (values : List Str) → Increasing (unique_strings values)
unique_strings-Increasing values =
    rw (unique-eq values) (sort-Increasing _ (fresh-NoRepeat [] values))

-- The result depends on which values occur, not on their order or number.
pub unique_strings_ext :
    (values others : List Str)
    → ((x : Str) → Memᴰ x values ↔ Memᴰ x others)
    → unique_strings values ≡ unique_strings others
unique_strings_ext values others same =
    Increasing-ext _ _ (unique_strings-Increasing values) (unique_strings-Increasing others)
      (λ x m.
        let (n, e) = (mem-unique_iff values x).0 m in (mem-unique_iff others x).1 ((same x).0 n, e))
      (λ x m.
        let (n, e) = (mem-unique_iff others x).0 m in (mem-unique_iff values x).1 ((same x).1 n, e))
