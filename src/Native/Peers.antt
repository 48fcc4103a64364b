-- ===== src/Native/Peers.antt =====
-- The peers and address blocks of internal/policy/native/native.go.
use kube_net_mods.Prelude.{
  Bool, true, false, ◌&&◌, not, ◌≡◌, refl, sym, ◌↔◌, ◌⊎◌, inl, inr, List, [], Option, none, some,
  Str, str_eq, str_eq_iff, any, is_empty, if◌then◌else◌, Option-cases, arith, is_some,
}
use kube_net_mods.Cluster.{Labels, Pod, Namespace, Selectors, Netip}

-- networkingv1.IPBlock
pub record IpBlock : Type 0 where
  pub cidr : Str
  pub excepts : List Str

module _ (N : Netip) where
  open N use {Addr, parse_prefix, parse_addr, contains}

  -- `ParsePrefix` succeeds and the prefix contains the address.
  abbrev pub cidr_contains : Addr → Str → Bool
  cidr_contains ip cidr = elim (parse_prefix cidr) [
    | none ↦ false
    | some prefix ↦ contains prefix ip
  ]

  abbrev block_contains : IpBlock → Str → Bool
  block_contains block address =
      if is_empty address then false else elim (parse_prefix block.cidr) [
        | none ↦ false
        | some prefix ↦ elim (parse_addr address) [
          | none ↦ false
          | some ip ↦
              if not (contains prefix ip) then false else not (any (cidr_contains ip) block.excepts)
        ]
      ]

  unfoldable pub ip_block_contains : Option IpBlock → Str → Bool
  ip_block_contains none address = false
  ip_block_contains (some block) address = block_contains block address

  -- The block's range holds the address, and no exception that parses holds it.
  pub record InBlock (block : IpBlock) (address : Str) : Type 0 where
    pub ip : Addr
    pub parsed : parse_addr address ≡ some ip
    pub inside : cidr_contains ip block.cidr ≡ true
    pub outside : any (cidr_contains ip) block.excepts ≡ false

  block_contains_sound :
      (block : IpBlock) (address : Str)
      → block_contains block address ≡ true
      → InBlock block address
  block_contains_sound block address h = elim (Option-cases (parse_addr address)) [
    | inl bad ↦ absurd (ground arith)
    | inr (ip, parsed) ↦ record {
      ip = ip;
      parsed = parsed;
      inside = ground arith;
      outside = ground arith;
    }
  ]

  -- A policy's address block contains a non-empty address exactly when both parse, the range holds
  -- the address, and none of the exceptions does.
  pub ip_block_contains_iff :
      (block : IpBlock) (address : Str)
      → (ip_block_contains (some block) address ≡ true)
        ↔ ((is_empty address ≡ false) × InBlock block address)
  unfolding ip_block_contains
  ip_block_contains_iff block address = (
    λ h. (ground arith, block_contains_sound block address h),
    λ (filled, i). ground (arith, i.parsed, i.inside, i.outside),
  )

module _ (K : Selectors) where
  open K use {LabelSelector, as_selector}

  -- networkingv1.NetworkPolicyPeer
  pub record Peer : Type 0 where
    pub namespace_selector : Option LabelSelector
    pub pod_selector : Option LabelSelector
    pub ip_block : Option IpBlock

  -- A selector that is well formed and matches the labels.
  abbrev pub selects : LabelSelector → Labels → Bool
  selects selector labels = elim (as_selector selector) [
    | none ↦ false
    | some matches ↦ matches labels
  ]

  abbrev pub namespace_matches : Option LabelSelector → Namespace → Str → Bool
  namespace_matches (some selector) namespace policy_namespace = selects selector namespace.labels
  namespace_matches none namespace policy_namespace =
      not (not (is_empty policy_namespace) && not (str_eq namespace.name policy_namespace))

  abbrev pub pod_matches : Option LabelSelector → Pod → Bool
  pod_matches none pod = true
  pod_matches (some selector) pod = selects selector pod.labels

  unfoldable pub peer_matches_pod : Peer → Pod → Namespace → Str → Bool
  unfolding str_eq
  peer_matches_pod peer pod namespace policy_namespace =
      if not (is_some peer.namespace_selector) && not (is_some peer.pod_selector)
      then false
      else if not (namespace_matches peer.namespace_selector namespace policy_namespace)
      then false
      else pod_matches peer.pod_selector pod

  -- What the Kubernetes API says of a peer with selectors: without a namespace selector it speaks of
  -- the policy's own namespace, and without a pod selector of all pods.
  pub data NamespaceOk (policy_namespace : Str) (namespace : Namespace)
      : Option LabelSelector → Type 0 where
    own : policy_namespace ≡ namespace.name → NamespaceOk policy_namespace namespace none
    chosen :
        {s : LabelSelector}
        → selects s namespace.labels ≡ true
        → NamespaceOk policy_namespace namespace (some s)

  pub data PodOk (pod : Pod) : Option LabelSelector → Type 0 where
    each_pod : PodOk pod none
    chosen_pod : {s : LabelSelector} → selects s pod.labels ≡ true → PodOk pod (some s)

  abbrev pub HasSelector : Peer → Type 0
  HasSelector peer = (is_some peer.namespace_selector ≡ true) ⊎ (is_some peer.pod_selector ≡ true)

  own_inv : {p : Str} {namespace : Namespace} → NamespaceOk p namespace none → p ≡ namespace.name
  own_inv (own e) = e

  chosen_inv :
      {p : Str} {namespace : Namespace} {s : LabelSelector}
      → NamespaceOk p namespace (some s)
      → selects s namespace.labels ≡ true
  chosen_inv (chosen e) = e

  chosen_pod_inv :
      {pod : Pod} {s : LabelSelector} → PodOk pod (some s) → selects s pod.labels ≡ true
  chosen_pod_inv (chosen_pod e) = e

  namespace_iff :
      (o : Option LabelSelector) (namespace : Namespace) (policy_namespace : Str)
      → is_empty policy_namespace ≡ false
      → (namespace_matches o namespace policy_namespace ≡ true)
        ↔ NamespaceOk policy_namespace namespace o
  namespace_iff none namespace p filled = (
    λ h. own (sym ((str_eq_iff namespace.name p).0 (ground arith))),
    λ k. ground (arith, (str_eq_iff namespace.name p).1 (sym (own_inv k))),
  )
  namespace_iff (some s) namespace p filled = (chosen, chosen_inv)

  pub pod_iff : (o : Option LabelSelector) (pod : Pod) → (pod_matches o pod ≡ true) ↔ PodOk pod o
  pod_iff none pod = (λ _. each_pod, λ _. refl)
  pod_iff (some s) pod = (chosen_pod, chosen_pod_inv)

  -- With the policy's namespace given, a peer matches a pod exactly when it has a selector and both
  -- of its parts, read as the Kubernetes API reads them, admit the pod and its namespace.
  pub peer_matches_pod_iff :
      (peer : Peer) (pod : Pod) (namespace : Namespace) (policy_namespace : Str)
      → is_empty policy_namespace ≡ false
      → (peer_matches_pod peer pod namespace policy_namespace ≡ true) ↔ (
          HasSelector peer
          × NamespaceOk policy_namespace namespace peer.namespace_selector
          × PodOk pod peer.pod_selector)
  unfolding peer_matches_pod
  peer_matches_pod_iff peer pod namespace p filled =
      let (ns_to, ns_from) = namespace_iff peer.namespace_selector namespace p filled in
      let (pod_to, pod_from) = pod_iff peer.pod_selector pod in
      (
        λ h. (ground arith, ns_to (ground arith), pod_to (ground arith)),
        λ (has, n, q). ground (arith, ns_from n, pod_from q),
      )

  -- With no policy namespace given, a peer with a pod selector only looks at the pod alone.
  pub peer_without_namespace :
      (peer : Peer) (pod : Pod) (namespace : Namespace)
      → peer.namespace_selector ≡ none
      → peer_matches_pod peer pod namespace []
        ≡ (is_some peer.pod_selector && pod_matches peer.pod_selector pod)
  unfolding peer_matches_pod
  peer_without_namespace peer pod namespace e = ground arith
