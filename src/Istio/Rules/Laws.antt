-- ===== src/Istio/Rules/Laws.antt =====
-- What the rules of internal/check/istio_authz.go admit.
use kube_net_mods.Prelude.{
  Bool, true, false, ◌||◌, ◌&&◌, not, ◌≡◌, refl, ◌↔◌, ◌⊎◌, inl, inr, List, [], ◌∷◌, Option, none,
  some, Str, is_empty, if◌then◌else◌, any, any_iff, all_iff, Exists, Each, arith, Option-cases,
  and_iff, cons_ne, false_of_not, pass_guard, pass_test,
}
use kube_net_mods.Istio.Request.{Request}
use kube_net_mods.Istio.Patterns.{
  istio_string_list_matches, istio_any_string_list_any_matches, istio_any_string_list_matches,
}
use kube_net_mods.Istio.Patterns.Lists.{
  Some, SomeOf, Only, OnlyOf, Some-iff, SomeOf-iff, Only-iff, OnlyOf-iff,
}
use kube_net_mods.Istio.Rules.{
  Source, Operation, AuthCondition, AuthRule, listed, condition_holds,
  istio_relative_service_account, istio_condition_value, istio_authorization_source_matches,
  istio_authorization_operation_matches, istio_authorization_from_matches,
  istio_authorization_to_matches, istio_authorization_when_matches,
  istio_authorization_rule_matches,
}

-- A value is admitted: the first list is empty or has a pattern for it, and the second has none.
abbrev pub Admits : List Str → List Str → Str → Type 0
Admits only never value = Only false only value × (¬ Some false never value)

listed_iff :
    (only never : List Str) (value : Str)
    → (listed only never value false ≡ true) ↔ Admits only never value
listed_iff only never value = (
  λ h. (
    (Only-iff false only value).0 (ground arith),
    λ s. ground (arith, (Some-iff false never value).1 s),
  ),
  λ (o, n).
      not_or (istio_string_list_matches only value false) _ ((Only-iff false only value).1 o)
        (λ h. n ((Some-iff false never value).0 h)),
)
  where
    not_or : (a b : Bool) → a ≡ true → ¬ (b ≡ true) → not (not a || b) ≡ true
    not_or a true h k = absurd (k refl)
    not_or a false h k = ground arith

-- The source of a request is admitted by a source entry: every criterion that is given holds.
pub record SourceOk (policy_namespace : Str) (request : Request) (source : Source) : Type 0 where
  pub namespace : Admits source.namespaces source.not_namespaces request.source_namespace
  pub account : Admits source.service_accounts source.not_service_accounts (
      istio_relative_service_account request.source_namespace request.source_service_account
        policy_namespace)
  pub principals : OnlyOf false source.principals request.source_principals
  pub not_principals : ¬ SomeOf false source.not_principals request.source_principals
  pub request_principals : OnlyOf false source.request_principals request.request_principals
  pub not_request_principals :
      ¬ SomeOf false source.not_request_principals request.request_principals

-- Hosts are compared without regard to case.
pub record OperationOk (request : Request) (operation : Operation) : Type 0 where
  pub hosts : OnlyOf true operation.hosts request.authority_hosts
  pub not_hosts : ¬ SomeOf true operation.not_hosts request.authority_hosts
  pub ports : Admits operation.ports operation.not_ports request.port_text
  pub methods : Admits operation.methods operation.not_methods request.method
  pub paths : Admits operation.paths operation.not_paths request.path

pub record ConditionOk (request : Request) (condition : AuthCondition) : Type 0 where
  pub value : Str
  pub known : istio_condition_value condition.key request ≡ some value
  pub admitted : Admits condition.values condition.not_values value

-- A nil entry asks nothing.
abbrev pub IfGiven : {A : Type 0} → (A → Type 0) → Option A → Type 0
IfGiven P none = Unit
IfGiven P (some a) = P a

-- `len(patterns) > 0 &&` before a test that is false of no patterns.
skip_only :
    (patterns values : List Str)
    → (not (is_empty patterns) && not (istio_any_string_list_matches patterns values false)) ≡ false
    → OnlyOf false patterns values
skip_only [] values h = inl refl
skip_only (p ∷ ps) values h = (OnlyOf-iff false (p ∷ ps) values).0 (ground arith)

only_skip :
    (patterns values : List Str)
    → OnlyOf false patterns values
    → (not (is_empty patterns) && not (istio_any_string_list_matches patterns values false)) ≡ false
only_skip patterns values o = ground (arith, (OnlyOf-iff false patterns values).1 o)

skip_some :
    (patterns values : List Str)
    → (not (is_empty patterns) && istio_any_string_list_any_matches patterns values false) ≡ false
    → ¬ SomeOf false patterns values
skip_some [] values h (v, m, (p, n, f)) = elim n [ ]
skip_some (p ∷ ps) values h s = ground (arith, (SomeOf-iff false (p ∷ ps) values).1 s)

some_skip :
    (patterns values : List Str)
    → (¬ SomeOf false patterns values)
    → (not (is_empty patterns) && istio_any_string_list_any_matches patterns values false) ≡ false
some_skip patterns values n =
    false_of_not _ (λ h. n ((SomeOf-iff false patterns values).0 ((and_iff _ _).0 h).1))

SourceOk-sound :
    (source : Source) (policy_namespace : Str) (request : Request)
    → istio_authorization_source_matches (some source) policy_namespace request ≡ true
    → SourceOk policy_namespace request source
unfolding istio_authorization_source_matches
SourceOk-sound source pns request h = record {
  namespace =
      (listed_iff source.namespaces source.not_namespaces request.source_namespace).0
        (ground arith);
  account = (listed_iff source.service_accounts source.not_service_accounts _).0 (ground arith);
  principals = skip_only source.principals request.source_principals (ground arith);
  not_principals = skip_some source.not_principals request.source_principals (ground arith);
  request_principals =
      skip_only source.request_principals request.request_principals (ground arith);
  not_request_principals =
      skip_some source.not_request_principals request.request_principals (ground arith);
}

SourceOk-complete :
    (source : Source) (policy_namespace : Str) (request : Request)
    → SourceOk policy_namespace request source
    → istio_authorization_source_matches (some source) policy_namespace request ≡ true
unfolding istio_authorization_source_matches
SourceOk-complete source pns request k =
    pass_guard _ _ ((listed_iff source.namespaces source.not_namespaces _).1 k.namespace) (
      pass_guard _ _
        ((listed_iff source.service_accounts source.not_service_accounts _).1 k.account)
        (pass_test _ _ (only_skip source.principals request.source_principals k.principals) (
          pass_test _ _ (some_skip source.not_principals request.source_principals k.not_principals)
            (pass_test _ _
              (only_skip source.request_principals request.request_principals k.request_principals)
              (ground (
                arith,
                some_skip source.not_request_principals request.request_principals
                    k.not_request_principals,
              ))))))

source_iff :
    (source : Option Source) (policy_namespace : Str) (request : Request)
    → (istio_authorization_source_matches source policy_namespace request ≡ true)
      ↔ IfGiven (SourceOk policy_namespace request) source
source_iff none pns request = (λ _. tt, λ _. unfold istio_authorization_source_matches in refl)
source_iff (some source) pns request =
    (SourceOk-sound source pns request, SourceOk-complete source pns request)

OperationOk-sound :
    (operation : Operation) (request : Request)
    → istio_authorization_operation_matches (some operation) request ≡ true
    → OperationOk request operation
unfolding istio_authorization_operation_matches
OperationOk-sound op request h = record {
  hosts = (OnlyOf-iff true op.hosts request.authority_hosts).0 (ground arith);
  not_hosts = λ s. ground (arith, (SomeOf-iff true op.not_hosts request.authority_hosts).1 s);
  ports = (listed_iff op.ports op.not_ports request.port_text).0 (ground arith);
  methods = (listed_iff op.methods op.not_methods request.method).0 (ground arith);
  paths = (listed_iff op.paths op.not_paths request.path).0 (ground arith);
}

OperationOk-complete :
    (operation : Operation) (request : Request)
    → OperationOk request operation
    → istio_authorization_operation_matches (some operation) request ≡ true
unfolding istio_authorization_operation_matches
OperationOk-complete op request k =
    pass_test _ _
      (ground (
        arith,
        (OnlyOf-iff true op.hosts request.authority_hosts).1 k.hosts,
        false_of_not _
            (λ h. k.not_hosts ((SomeOf-iff true op.not_hosts request.authority_hosts).0 h)),
      ))
      (pass_guard _ _ ((listed_iff op.ports op.not_ports request.port_text).1 k.ports) (
        pass_guard _ _ ((listed_iff op.methods op.not_methods request.method).1 k.methods)
          ((listed_iff op.paths op.not_paths request.path).1 k.paths)))

operation_iff :
    (operation : Option Operation) (request : Request)
    → (istio_authorization_operation_matches operation request ≡ true)
      ↔ IfGiven (OperationOk request) operation
operation_iff none request = (λ _. tt, λ _. unfold istio_authorization_operation_matches in refl)
operation_iff (some op) request = (OperationOk-sound op request, OperationOk-complete op request)

condition_iff :
    (condition : Option AuthCondition) (request : Request)
    → (condition_holds request condition ≡ true) ↔ IfGiven (ConditionOk request) condition
condition_iff none request = (λ _. tt, λ _. refl)
condition_iff (some c) request = (
  λ h. elim (Option-cases (istio_condition_value c.key request)) [
    | inl e ↦ absurd (ground arith)
    | inr (v, e) ↦ record {
      value = v;
      known = e;
      admitted = (listed_iff c.values c.not_values v).0 (ground arith);
    }
  ],
  λ k. ground (arith, k.known, (listed_iff c.values c.not_values k.value).1 k.admitted),
)

-- A list of alternatives that admits everything when it is empty.
alternatives_iff :
    {A : Type 0} {P : Option A → Type 0} (test : Option A → Bool) (entries : List (Option A))
    → ((a : Option A) → (test a ≡ true) ↔ P a)
    → ((if is_empty entries then true else any test entries) ≡ true)
      ↔ ((entries ≡ []) ⊎ Exists P entries)
alternatives_iff test [] each = (λ _. inl refl, λ _. refl)
alternatives_iff test (e ∷ es) each =
    let (to, from) = any_iff test (e ∷ es) in
    (
      λ h. let (x, m, hit) = to h in inr (x, m, (each x).0 hit),
      λ k. elim k [ inl q ↦ absurd (cons_ne q) | inr (x, m, p) ↦ from (x, m, (each x).1 p) ],
    )

-- A rule of a policy admits a request.
pub record RuleOk (policy_namespace : Str) (request : Request) (rule : AuthRule) : Type 0 where
  pub from : (rule.from ≡ []) ⊎ Exists (IfGiven (SourceOk policy_namespace request)) rule.from
  pub to : (rule.to ≡ []) ⊎ Exists (IfGiven (OperationOk request)) rule.to
  pub when : Each (IfGiven (ConditionOk request)) rule.when

-- A rule matches a request exactly when it names no sources or one that admits the request's source,
-- no operations or one that admits its operation, and each of its conditions holds.
pub istio_authorization_rule_matches_iff :
    (rule : AuthRule) (policy_namespace : Str) (request : Request)
    → (istio_authorization_rule_matches rule policy_namespace request ≡ true)
      ↔ RuleOk policy_namespace request rule
unfolding istio_authorization_rule_matches istio_authorization_from_matches
    istio_authorization_to_matches istio_authorization_when_matches
istio_authorization_rule_matches_iff rule pns request =
    let from = alternatives_iff _ rule.from (λ s. source_iff s pns request) in
    let to = alternatives_iff _ rule.to (λ o. operation_iff o request) in
    let (when_to, when_from) = all_iff (condition_holds request) rule.when in
    (
      λ h. record {
        from = from.0 (ground arith);
        to = to.0 (ground arith);
        when = λ c m. (condition_iff c request).0 (when_to (ground arith) c m);
      },
      λ k. ground (
        arith,
        from.1 k.from,
        to.1 k.to,
        when_from (λ c m. (condition_iff c request).1 (k.when c m)),
      ),
    )
