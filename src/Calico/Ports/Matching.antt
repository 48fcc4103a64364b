-- ===== src/Calico/Ports/Matching.antt =====
-- Which tested ports a rule's `ports` and `notPorts` leave (internal/policy/calico/analyze.go,
-- calicoEntityPortsMatch).
use kube_net_mods.Prelude.{
  Bool, true, false, not, ◌&&◌, ◌≡◌, refl, sym, ◌↔◌, ◌⊎◌, inl, inr, List, [], ◌∷◌, ◌++◌, some, Str,
  codes, str_eq, str_eq_iff, int_eq, int_eq_iff, ℤ, is_empty, if◌then◌else◌, any, any_iff, Exists,
  Bool-cases, Memᴰ, mem_here, mem_there, mem_inv, mem-append_left, mem-append_right, mem-append_inv,
  and_iff, not_iff, subst,
}
use mathlib.Core.Path.{ap₂}
use kube_net_mods.Calico.Value.{Floats, Value, Values, array, Fields, get, to_list}
use kube_net_mods.Calico.Ports.{
  PortCandidate, contains_port_candidate, port_token_matches, included_by, included_ports, excluded,
  calico_entity_ports_match,
}

same_iff :
    (p : PortCandidate) (ps : List PortCandidate) → contains_port_candidate ps p ≡ true → Memᴰ p ps
unfolding contains_port_candidate
same_iff p ps h =
    let (q, m, e) = (any_iff (λ c. int_eq c.number p.number && str_eq c.name p.name) ps).0 h in
    let (a, b) = (and_iff _ _).0 e in
    let made : ℤ → Str → PortCandidate = λ n s. record { number = n; name = s } in
    subst (λ z. Memᴰ z ps) (ap₂ made ((int_eq_iff _ _).0 a) ((str_eq_iff _ _).0 b)) m

module _ (F : Floats) where
  mem-included_by :
      (token : Value F) (included ports : List PortCandidate) (p : PortCandidate)
      → Memᴰ p (included_by F token included ports)
        ↔ (Memᴰ p included ⊎ (Memᴰ p ports × (port_token_matches F token p ≡ true)))
  unfolding included_by
  mem-included_by token included [] p = (inl, λ h. elim h [ inl m ↦ m | inr (m, _) ↦ elim m [ ] ])
  mem-included_by token included (q ∷ qs) p =
      elim (Bool-cases (port_token_matches F token q && not (contains_port_candidate included q))) [
        | inl e ↦
            let (hit, _) = (and_iff _ _).0 e in
            let (to, from) = mem-included_by token (included ++ q ∷ []) qs p in
            rw e (
              λ m. elim (to m) [
                | inl n ↦ elim (mem-append_inv included n) [
                  | inl k ↦ inl k
                  | inr k ↦ elim (mem_inv k) [
                    | inl f ↦
                        inr (
                          Memᴰ.head f,
                          subst (λ z. port_token_matches F token z ≡ true) (sym f) hit,
                        )
                    | inr k' ↦ elim k' [ ]
                  ]
                ]
                | inr (n, t) ↦ inr (mem_there n, t)
              ],
              λ h. elim h [
                | inl m ↦ from (inl (mem-append_left _ m))
                | inr (m, t) ↦ elim (mem_inv m) [
                  | inl f ↦ from (inl (mem-append_right included (Memᴰ.head f)))
                  | inr n ↦ from (inr (n, t))
                ]
              ],
            )
        | inr e ↦
            let (to, from) = mem-included_by token included qs p in
            rw e (
              λ m. elim (to m) [ inl n ↦ inl n | inr (n, t) ↦ inr (mem_there n, t) ],
              λ h. elim h [
                | inl m ↦ from (inl m)
                | inr (m, t) ↦ elim (mem_inv m) [
                  | inl f ↦
                      from (inl (seen e (subst (λ z. port_token_matches F token z ≡ true) f t) f))
                  | inr n ↦ from (inr (n, t))
                ]
              ],
            )
      ]
    where
      seen :
          (port_token_matches F token q && not (contains_port_candidate included q)) ≡ false
          → port_token_matches F token q ≡ true
          → p ≡ q
          → Memᴰ p included
      seen e hit f = elim (Bool-cases (contains_port_candidate included q)) [
        | inl k ↦ subst (λ z. Memᴰ z included) (sym f) (same_iff q included k)
        | inr k ↦
            let both : (port_token_matches F token q && not (contains_port_candidate included q))
                ≡ true =
              rw (hit, k) refl in
            absurd (cc (e, both))
      ]

  -- Some token of the list matches the port.
  abbrev pub Matched : List (Value F) → PortCandidate → Type 0
  Matched tokens p = Exists (λ t. port_token_matches F t p ≡ true) tokens

  mem-included_ports :
      (tokens : List (Value F)) (included candidates : List PortCandidate) (p : PortCandidate)
      → Memᴰ p (included_ports F tokens included candidates)
        ↔ (Memᴰ p included ⊎ (Memᴰ p candidates × Matched tokens p))
  unfolding included_ports
  mem-included_ports [] included candidates p =
      (inl, λ h. elim h [ inl m ↦ m | inr (_, (t, m, _)) ↦ elim m [ ] ])
  mem-included_ports (t ∷ ts) included candidates p =
      let (to, from) = mem-included_ports ts (included_by F t included candidates) candidates p in
      let (in_to, in_from) = mem-included_by t included candidates p in
      (
        λ m. elim (to m) [
          | inl n ↦ elim (in_to n) [ inl k ↦ inl k | inr (k, h) ↦ inr (k, (t, mem_here, h)) ]
          | inr (n, (u, k, h)) ↦ inr (n, (u, mem_there k, h))
        ],
        λ h. elim h [
          | inl m ↦ from (inl (in_from (inl m)))
          | inr (m, (u, k, g)) ↦ elim (mem_inv k) [
            | inl e ↦
                from (inl (in_from (inr (m, subst (λ z. port_token_matches F z p ≡ true) e g))))
            | inr n ↦ from (inr (m, (u, n, g)))
          ]
        ],
      )

  empty_then :
      (xs : List PortCandidate) (b : Bool)
      → (is_empty xs ≡ true → b ≡ false)
      → (if is_empty xs then false else b) ≡ b
  empty_then [] b h = sym (h refl)
  empty_then (x ∷ xs) b h = refl

  any_nothing :
      (p : PortCandidate → Bool) (xs : List PortCandidate) → is_empty xs ≡ true → any p xs ≡ false
  any_nothing p [] h = refl
  any_nothing p (x ∷ xs) h = cc

  -- When there are ports to test, the port test of an entity that gives a nonempty list `ports` and a
  -- list `notPorts` accepts exactly when one of the tested ports is matched by an entry of `ports` and
  -- by none of `notPorts`.
  pub calico_entity_ports_match_iff :
      (entity : Fields F) (candidates : List PortCandidate) (v : Value F) (vs refused : Values F)
      → is_empty candidates ≡ false
      → get F entity (codes "ports") ≡ some (array (Values.item v vs))
      → get F entity (codes "notPorts") ≡ some (array refused)
      → (calico_entity_ports_match F (some entity) candidates ≡ true)
        ↔ Exists (λ p. Matched (v ∷ to_list F vs) p × (¬ Matched (to_list F refused) p)) candidates
  unfolding calico_entity_ports_match
  calico_entity_ports_match_iff entity candidates v vs refused filled asked barred =
      let tokens = v ∷ to_list F vs in
      let included = included_ports F tokens [] candidates in
      let left : PortCandidate → Bool = λ port. not (excluded F (to_list F refused) port) in
      let (any_to, any_from) = any_iff left included in
      rw
        (
          filled,
          asked,
          barred,
          empty_then included (any left included) (any_nothing left included),
          calico_entity_ports_match,
        )
        (
          λ h.
              let (p, m, k) = any_to h in
              elim ((mem-included_ports tokens [] candidates p).0 m) [
                | inl n ↦ elim n [ ]
                | inr (n, t) ↦ (
                  p,
                  n,
                  (
                    t,
                    λ r.
                        (not_iff _).0 k
                          ((any_iff (λ u. port_token_matches F u p) (to_list F refused)).1 r),
                  ),
                )
              ],
          λ (p, m, (t, r)). any_from (
            p,
            (mem-included_ports tokens [] candidates p).1 (inr (m, t)),
            (not_iff _).1
                (λ k. r ((any_iff (λ u. port_token_matches F u p) (to_list F refused)).0 k)),
          ),
        )
