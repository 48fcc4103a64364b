-- ===== src/Istio/Client/Laws.antt =====
-- What listing Istio objects over several namespaces returns, and which objects a consumer sees
-- (internal/check/istio_client.go).
use kube_net_mods.Prelude.{
  true, ◌≡◌, ◌≢◌, refl, sym, ◌∙◌, ◌↔◌, ◌⊎◌, inl, inr, List, [], ◌∷◌, ◌++◌, Option, none, some, Str,
  codes, str_eq, str_eq_iff, any_iff, Exists, Each, arith, Bool-cases, mem_here, mem_there, mem_inv,
  subst, false_of_not, cons_ne,
}
use mathlib.Core.List.{append-nil, append_assoc}
use kube_net_mods.Istio.Client.{
  Answer, items, not_found, failed, list_rest, list_istio_policies, first_error,
  istio_export_to_visible, export_admits, normal,
}

module _ {A : Type 0} where
  abbrev items_of : Answer A → List A
  items_of (items found) = found
  items_of not_found = []
  items_of (failed message) = []

  -- The answer is an error other than "not found".
  abbrev pub Broken : Answer A → Type 0
  Broken (items found) = ⊥
  Broken not_found = ⊥
  Broken (failed message) = Unit

  abbrev after_error : Answer A → Option Str → Option Str
  after_error (items found) error = error
  after_error not_found error = error
  after_error (failed message) error = first_error error message

  pub Answer-cases :
      (a : Answer A)
      → ((found : List A) × (a ≡ items found)) ⊎ (a ≡ not_found) ⊎ ((e : Str) × (a ≡ failed e))
  Answer-cases (items found) = inl (found, refl)
  Answer-cases not_found = inr (inl refl)
  Answer-cases (failed e) = inr (inr (e, refl))

module _ {A : Type 0} (ask : Str → Answer A) where
  -- All items of the namespaces that answer, in the order of the namespaces.
  abbrev pub answered : List Str → List A
  answered [] = []
  answered (namespace ∷ namespaces) = items_of (ask namespace) ++ answered namespaces

  list_rest-found :
      (namespaces : List Str) (out : List A) (error : Option Str)
      → (list_rest ask namespaces out error).found ≡ out ++ answered namespaces
  unfolding list_rest
  list_rest-found [] out error = sym (append-nil out)
  list_rest-found (n ∷ ns) out error = elim (Answer-cases (ask n)) [
    | inl (found, e) ↦
        rw (e, list_rest) (list_rest-found ns (out ++ found) error ∙ append_assoc out found _)
    | inr (inl e) ↦ rw (e, list_rest) (list_rest-found ns out error)
    | inr (inr (m, e)) ↦ rw (e, list_rest) (list_rest-found ns out (first_error error m))
  ]

  -- A kept error stays.
  list_rest-keeps :
      (namespaces : List Str) (out : List A) (m : Str)
      → (list_rest ask namespaces out (some m)).error ≡ some m
  unfolding list_rest
  list_rest-keeps [] out m = refl
  list_rest-keeps (n ∷ ns) out m = elim (Answer-cases (ask n)) [
    | inl (found, e) ↦ rw (e, list_rest) (list_rest-keeps ns (out ++ found) m)
    | inr (inl e) ↦ rw (e, list_rest) (list_rest-keeps ns out m)
    | inr (inr (k, e)) ↦ rw (e, list_rest) (list_rest-keeps ns out m)
  ]

  more :
      (n : Str) (ns : List Str) (P : Type 0)
      → (¬ Broken (ask n))
      → P ↔ Each (λ n. ¬ Broken (ask n)) ns
      → P ↔ Each (λ n. ¬ Broken (ask n)) (n ∷ ns)
  more n ns P fine (to, from) = (
    λ p x m. elim (mem_inv m) [
      | inl e ↦ λ b. fine (subst (λ y. Broken (ask y)) e b)
      | inr l ↦ to p x l
    ],
    λ h. from (λ x m. h x (mem_there m)),
  )

  list_rest-error :
      (namespaces : List Str) (out : List A)
      → ((list_rest ask namespaces out none).error ≡ none) ↔ Each (λ n. ¬ Broken (ask n)) namespaces
  unfolding list_rest
  list_rest-error [] out = (λ _ x m. elim m [ ], λ _. refl)
  list_rest-error (n ∷ ns) out = elim (Answer-cases (ask n)) [
    | inl (found, e) ↦
        rw (e, list_rest) (more n ns _ (λ b. subst Broken e b) (list_rest-error ns (out ++ found)))
    | inr (inl e) ↦ rw (e, list_rest) (more n ns _ (λ b. subst Broken e b) (list_rest-error ns out))
    | inr (inr (k, e)) ↦
        rw (e, list_rest)
          (
            λ h. absurd (cc (h, list_rest-keeps ns out k)),
            λ h. absurd (h n mem_here (subst Broken (sym e) tt)),
          )
  ]

  -- When the first namespace answers with items or with "not found", the items of all namespaces that
  -- answer are returned in the order of the namespaces, and there is an error exactly when one of the
  -- others is broken.
  pub list_istio_policies_rest :
      (first : Str) (namespaces : List Str)
      → (¬ Broken (ask first))
      → ((list_istio_policies ask (first ∷ namespaces)).found ≡ answered (first ∷ namespaces))
        × (((list_istio_policies ask (first ∷ namespaces)).error ≡ none)
            ↔ Each (λ n. ¬ Broken (ask n)) (first ∷ namespaces))
  unfolding list_istio_policies list_rest
  list_istio_policies_rest n ns fine = elim (Answer-cases (ask n)) [
    | inl (found, e) ↦
        rw (e, list_istio_policies)
          (
            list_rest-found ns found none,
            more n ns _ (λ b. subst Broken e b) (list_rest-error ns found),
          )
    | inr (inl e) ↦
        rw (e, list_istio_policies)
          (list_rest-found ns [] none, more n ns _ (λ b. subst Broken e b) (list_rest-error ns []))
    | inr (inr (k, e)) ↦ absurd (fine (subst Broken (sym e) tt))
  ]

-- A text is visible to a consumer by one entry of exportTo.
abbrev pub ExportsTo : Str → Str → Str → Type 0
ExportsTo config consumer raw =
    (normal raw ≡ codes "*")
    ⊎ ((normal raw ≡ codes ".") × (normal consumer ≡ normal config))
    ⊎ ((normal raw ≢ codes ".") × (normal raw ≡ normal consumer))

export_admits_iff :
    (v config consumer : Str)
    → (export_admits v config consumer ≡ true) ↔ (
        (v ≡ codes "*")
        ⊎ ((v ≡ codes ".") × (consumer ≡ config))
        ⊎ ((v ≢ codes ".") × (v ≡ consumer)))
export_admits_iff v config consumer = (
  λ h. elim (Bool-cases (str_eq v (codes "*"))) [
    | inl e ↦ inl ((str_eq_iff _ _).0 e)
    | inr e ↦ elim (Bool-cases (str_eq v (codes "."))) [
      | inl f ↦ inr (inl ((str_eq_iff _ _).0 f, (str_eq_iff _ _).0 (ground arith)))
      | inr f ↦ inr (inr (λ q. cc (f, (str_eq_iff _ _).1 q), (str_eq_iff _ _).0 (ground arith)))
    ]
  ],
  λ h. elim h [
    | inl e ↦ rw ((str_eq_iff _ _).1 e) refl
    | inr (inl (e, f)) ↦ elim (Bool-cases (str_eq v (codes "*"))) [
      | inl s ↦ rw s refl
      | inr s ↦ rw (s, (str_eq_iff _ _).1 e) ((str_eq_iff _ _).1 f)
    ]
    | inr (inr (e, f)) ↦ elim (Bool-cases (str_eq v (codes "*"))) [
      | inl s ↦ rw s refl
      | inr s ↦ rw (s, false_of_not _ (λ q. e ((str_eq_iff _ _).0 q))) ((str_eq_iff _ _).1 f)
    ]
  ],
)

-- An object is visible exactly when there is no consumer namespace, no exportTo, or an entry that is
-- "*", "." in the consumer's own namespace, or the consumer's namespace; case and surrounding white
-- space do not count.
pub istio_export_to_visible_iff :
    (export_to : List Str) (config consumer : Str)
    → (istio_export_to_visible export_to config consumer ≡ true)
      ↔ ((consumer ≡ []) ⊎ (export_to ≡ []) ⊎ Exists (ExportsTo config consumer) export_to)
unfolding istio_export_to_visible
istio_export_to_visible_iff export_to config [] = (λ _. inl refl, λ _. refl)
istio_export_to_visible_iff [] config (c ∷ cs) = (λ _. inr (inl refl), λ _. refl)
istio_export_to_visible_iff (r ∷ rs) config (c ∷ cs) = (
  λ h.
      let (x, m, f) =
        (any_iff (λ y. export_admits (normal y) (normal config) (normal (c ∷ cs))) (r ∷ rs)).0 h in
      inr (inr (x, m, (export_admits_iff _ _ _).0 f)),
  λ h. elim h [
    | inl e ↦ absurd (cons_ne e)
    | inr (inl e) ↦ absurd (cons_ne e)
    | inr (inr (x, m, f)) ↦
        (any_iff (λ y. export_admits (normal y) (normal config) (normal (c ∷ cs))) (r ∷ rs)).1
          (x, m, (export_admits_iff _ _ _).1 f)
  ],
)
