-- ===== src/Istio/Policies/Laws.antt =====
-- Which policies reach a target and what their lists hold (internal/check/istio_authz.go).
use kube_net_mods.Prelude.{
  Bool, true, false, ◌||◌, not, ◌≡◌, ◌≢◌, refl, ap, ◌↔◌, ◌⊎◌, inl, inr, List, [], ◌∷◌, ◌++◌, Memᴰ,
  Option, none, some, Str, codes, str_eq, str_eq_iff, is_empty, if◌then◌else◌, any, any_iff, keep,
  mem-keep_iff, Exists, Each, arith, is_some, Bool-cases, List-cases, mem_here, mem_there, mem_inv,
  cons_ne, and_iff, none_of_any, any_none, to_lower,
}
use mathlib.Core.Option.{some-injective}
use kube_net_mods.Cluster.{Service, Pod, Selectors}
use kube_net_mods.Istio.Request.{Request}
use kube_net_mods.Istio.Policies.{
  AuthorizationPolicy, TargetRef, Scope, allow, target_ref_matches_service,
  istio_authorization_policy_dry_run, enforced_istio_authorization_policies,
  istio_workload_selector_matches_any, scope_selects_target, applies, hits,
  istio_allow_default_deny,
}

-- A policy is evaluated exactly when it is listed, not nil, and not a dry run.
pub enforced_istio_authorization_policies_iff :
    (item : AuthorizationPolicy) (items : List (Option AuthorizationPolicy))
    → Memᴰ item (enforced_istio_authorization_policies items)
      ↔ (Memᴰ (some item) items × (istio_authorization_policy_dry_run item ≡ false))
unfolding enforced_istio_authorization_policies
enforced_istio_authorization_policies_iff item [] = (λ m. elim m [ ], λ (m, _). elim m [ ])
enforced_istio_authorization_policies_iff item (none ∷ items) =
    let (to, from) = enforced_istio_authorization_policies_iff item items in
    (
      λ m. let (n, h) = to m in (mem_there n, h),
      λ (m, h). elim (mem_inv m) [ inl e ↦ cc | inr n ↦ from (n, h) ],
    )
enforced_istio_authorization_policies_iff item (some p ∷ items) =
    let (to, from) = enforced_istio_authorization_policies_iff item items in
    elim (Bool-cases (istio_authorization_policy_dry_run p)) [
      | inl dry ↦ rw dry (
        λ m. let (n, h) = to m in (mem_there n, h),
        λ (m, h). elim (mem_inv m) [
          | inl e ↦
              absurd (cc (ap istio_authorization_policy_dry_run (some-injective _ _ e), h, dry))
          | inr n ↦ from (n, h)
        ],
      )
      | inr live ↦ rw live (
        λ m. elim (mem_inv m) [
          | inl e ↦ (Memᴰ.head (ap some e), rw e live)
          | inr n ↦ let (k, h) = to n in (mem_there k, h)
        ],
        λ (m, h). elim (mem_inv m) [
          | inl e ↦ Memᴰ.head (some-injective _ _ e)
          | inr n ↦ mem_there (from (n, h))
        ],
      )
    ]

-- What a reference to a Service is: of the core group, of kind Service, in the policy's namespace
-- unless it names another, and with the Service's name.
abbrev pub RefersTo : Option TargetRef → Service → Str → Type 0
RefersTo none service policy_namespace = ⊥
RefersTo (some ref) service policy_namespace =
    ((ref.group ≡ []) ⊎ (to_lower ref.group ≡ codes "core"))
    × (to_lower ref.kind ≡ codes "service")
    × ((if is_empty ref.namespace then policy_namespace else ref.namespace) ≡ service.namespace)
    × (ref.name ≡ service.name)

target_ref_iff :
    (ref : Option TargetRef) (service : Service) (policy_namespace : Str)
    → (target_ref_matches_service ref (some service) policy_namespace ≡ true)
      ↔ RefersTo ref service policy_namespace
unfolding target_ref_matches_service to_lower
target_ref_iff none service pns = (λ h. cc, λ b. absurd b)
target_ref_iff (some ref) service pns = (
  λ h.
      let (h1, name) = (and_iff _ (str_eq ref.name service.name)).0 h in
      let (h2, namespace) = (and_iff _ (str_eq _ service.namespace)).0 h1 in
      let (group, kind) = (and_iff _ (str_eq (to_lower ref.kind) (codes "service"))).0 h2 in
      (
        core_of ref.group group,
        (str_eq_iff _ _).0 kind,
        (str_eq_iff _ _).0 namespace,
        (str_eq_iff _ _).0 name,
      ),
  λ (group, kind, namespace, name). (and_iff _ _).1 (
    (and_iff _ _).1 (
      (and_iff _ _).1 (of_core ref.group group, (str_eq_iff _ _).1 kind),
      (str_eq_iff _ _).1 namespace,
    ),
    (str_eq_iff _ _).1 name,
  ),
)
  where
    core_of :
        (g : Str)
        → (is_empty (to_lower g) || str_eq (to_lower g) (codes "core")) ≡ true
        → (g ≡ []) ⊎ (to_lower g ≡ codes "core")
    core_of [] h = inl refl
    core_of (c ∷ g) h = inr ((str_eq_iff _ _).0 h)

    of_core :
        (g : Str)
        → (g ≡ []) ⊎ (to_lower g ≡ codes "core")
        → (is_empty (to_lower g) || str_eq (to_lower g) (codes "core")) ≡ true
    of_core [] h = refl
    of_core (c ∷ g) (inl e) = absurd (cons_ne e)
    of_core (c ∷ g) (inr e) = (str_eq_iff _ _).1 e

module _ {A : Type 0} (p q : A → Bool) (xs : List A) where
  -- Something is chosen, and nothing that is chosen matches.
  abbrev Refused : Type 0
  Refused = Exists (λ x. p x ≡ true) xs × Each (λ x. p x ≡ true → q x ≡ false) xs

  refused_to : (is_empty (keep p xs) || any q (keep p xs)) ≡ false → Refused
  refused_to h = elim (List-cases (keep p xs)) [
    | inl e ↦ absurd (cc (rw e at h))
    | inr (y, ys, e) ↦
        let (m, hit) = (mem-keep_iff p y xs).0 (rw e mem_here) in
        (
          (y, m, hit),
          λ x n c. none_of_any q (keep p xs) (ground arith) x ((mem-keep_iff p x xs).1 (n, c)),
        )
  ]

  refused_from : Refused → (is_empty (keep p xs) || any q (keep p xs)) ≡ false
  refused_from ((x, m, hit), f) =
      let none_match =
        any_none q (keep p xs) (λ y n. let (k, c) = (mem-keep_iff p y xs).0 n in f y k c) in
      elim (List-cases (keep p xs)) [
        | inl e ↦ absurd (elim (rw e at ((mem-keep_iff p x xs).1 (m, hit))) [ ])
        | inr (y, ys, e) ↦ ground arith
      ]

not_empty-append :
    {A : Type 0} (xs ys : List A)
    → not (is_empty (xs ++ ys)) ≡ (not (is_empty xs) || not (is_empty ys))
not_empty-append [] ys = refl
not_empty-append (x ∷ xs) ys = refl

not_empty_iff : {A : Type 0} (xs : List A) → (xs ≢ []) ↔ (not (is_empty xs) ≡ true)
not_empty_iff [] = (λ h. absurd (h refl), λ h. cc)
not_empty_iff (x ∷ xs) = (λ _. refl, λ _. cons_ne)

is_some_guard :
    {A : Type 0} (b : Bool) (a : A) → (is_some (if b then none else some a) ≡ true) ↔ (b ≡ false)
is_some_guard true a = (λ h. cc, λ h. cc)
is_some_guard false a = (λ _. refl, λ _. refl)

module _ (K : Selectors) where
  open K use {set_matches}

  module _ (namespace : Str) (service : Service) (pods : List Pod) where
    -- A policy reaches a Service through its targetRefs, without those through its targetRef, and
    -- without either through a workload selector that is empty or matches one of the pods.
    abbrev pub Reaches : List (Option TargetRef) → Option TargetRef → List (Str × Str) → Type 0
    Reaches (r ∷ rs) ref selector = Exists (λ x. RefersTo x service namespace) (r ∷ rs)
    Reaches [] (some ref) selector = RefersTo (some ref) service namespace
    Reaches [] none selector =
        (selector ≡ []) ⊎ Exists (λ pod. set_matches selector pod.labels ≡ true) pods

  selector_iff :
      (selector : List (Str × Str)) (pods : List Pod)
      → (istio_workload_selector_matches_any K selector pods ≡ true)
        ↔ ((selector ≡ []) ⊎ Exists (λ pod. set_matches selector pod.labels ≡ true) pods)
  unfolding istio_workload_selector_matches_any
  selector_iff [] pods = (λ _. inl refl, λ _. refl)
  selector_iff (l ∷ ls) pods = (
    λ h. inr ((any_iff (λ pod. set_matches (l ∷ ls) pod.labels) pods).0 h),
    λ h. elim h [
      | inl e ↦ absurd (cons_ne e)
      | inr x ↦ (any_iff (λ pod. set_matches (l ∷ ls) pod.labels) pods).1 x
    ],
  )

  Reaches-iff :
      (refs : List (Option TargetRef)) (ref : Option TargetRef) (selector : List (Str × Str))
      (namespace : Str) (service : Service) (pods : List Pod)
      → ((if not (is_empty refs)
            then any (λ x. target_ref_matches_service x (some service) namespace) refs
            else if is_some ref
            then target_ref_matches_service ref (some service) namespace
            else istio_workload_selector_matches_any K selector pods)
          ≡ true)
        ↔ Reaches namespace service pods refs ref selector
  Reaches-iff (r ∷ rs) ref selector namespace service pods =
      let test : Option TargetRef → Bool =
        λ x. target_ref_matches_service x (some service) namespace in
      (
        λ h.
            let (x, m, t) = (any_iff test (r ∷ rs)).0 h in
            (x, m, (target_ref_iff x service namespace).0 t),
        λ (x, m, t). (any_iff test (r ∷ rs)).1 (x, m, (target_ref_iff x service namespace).1 t),
      )
  Reaches-iff [] (some ref) selector namespace service pods =
      target_ref_iff (some ref) service namespace
  Reaches-iff [] none selector namespace service pods = selector_iff selector pods

  -- A policy selects the target of a Service exactly when one of its targetRefs refers to the Service, or
  -- it has none and its targetRef does, or it has neither and its workload selector is empty or matches
  -- one of the pods.
  pub scope_selects_target_iff :
      (scope : Scope) (namespace : Str) (service : Service) (pods : List Pod)
      → (scope_selects_target K scope namespace (some service) pods ≡ true)
        ↔ Reaches namespace service pods scope.target_refs scope.target_ref scope.selector
  unfolding scope_selects_target
  scope_selects_target_iff scope namespace service pods =
      Reaches-iff scope.target_refs scope.target_ref scope.selector namespace service pods

  module _ (service : Option Service) (pods : List Pod) where
    -- An ALLOW policy applies to the target and none that applies matches the request: exactly then
    -- the default deny is reported.
    pub istio_allow_default_deny_iff :
        (items : List AuthorizationPolicy) (request : Request)
        → (is_some (istio_allow_default_deny K service pods items request) ≡ true) ↔ (
            Exists (λ item. applies K service pods allow item ≡ true) items
            × Each
                (λ item.
                  applies K service pods allow item ≡ true
                  → hits K service pods request item ≡ false)
                items)
    unfolding istio_allow_default_deny
    istio_allow_default_deny_iff items request =
        let (to, from) = is_some_guard _ _ in
        (
          λ h. refused_to (applies K service pods allow) (hits K service pods request) items (to h),
          λ r.
              from
                (refused_from (applies K service pods allow) (hits K service pods request) items r),
        )
