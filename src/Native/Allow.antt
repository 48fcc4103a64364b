-- ===== src/Native/Allow.antt =====
-- When a rule of internal/policy/native/native.go allows a path, against the Kubernetes API's reading
-- of a rule.
use kube_net_mods.Prelude.{
  Bool, true, false, ◌&&◌, not, ◌≡◌, refl, ◌↔◌, ◌⊎◌, inl, inr, List, [], ◌∷◌, Option, none, some,
  Str, any, any_iff, and_iff, Exists, Memᴰ, ℤ, is_empty, if◌then◌else◌, Bool-cases, arith, is_some,
  cons_ne,
}
use kube_net_mods.Cluster.{Pod, Namespace, Service, Selectors, Netip}
use kube_net_mods.Native.Ports.{ports_allow}
use kube_net_mods.Native.Peers.{
  IpBlock, ip_block_contains, ip_block_contains_iff, InBlock, Peer, peer_matches_pod,
  peer_matches_pod_iff, HasSelector, NamespaceOk, PodOk, pod_iff, peer_without_namespace,
}
use kube_net_mods.Native.Rules.{
  Rule, service_ip, pod_allows, egress_peer_allows, egress_rule_allows, ingress_peer_allows,
  ingress_rule_allows,
}

-- A loop over rule peers, behind the two early returns.
rule_shape {ℓ} :
    {A : Type ℓ} (p : A → Bool) (ok : Bool) (peers : List A)
    → ((if not ok then false else if is_empty peers then true else any p peers) ≡ true)
      ↔ ((ok ≡ true) × ((peers ≡ []) ⊎ Exists (λ a. p a ≡ true) peers))
rule_shape p false peers = (λ h. cc, λ (e, _). cc)
rule_shape p true [] = (λ _. (refl, inl refl), λ _. refl)
rule_shape p true (a ∷ as') = (
  λ h. (refl, inr ((any_iff p (a ∷ as')).0 h)),
  λ (_, k). elim k [ inl e ↦ absurd (cons_ne e) | inr x ↦ (any_iff p (a ∷ as')).1 x ],
)

module _ (K : Selectors) (N : Netip) where
  -- The address is not empty and lies in the peer's block.
  pub data AddressOk (address : Str) : Option IpBlock → Type 0 where
    in_block :
        {block : IpBlock}
        → is_empty address ≡ false
        → InBlock N block address
        → AddressOk address (some block)

  address_sound :
      (block : Option IpBlock) (address : Str)
      → (not (is_empty address) && ip_block_contains N block address) ≡ true
      → AddressOk address block
  unfolding ip_block_contains
  address_sound none address h = ground arith
  address_sound (some block) address h =
      let (filled, inside) = (and_iff _ _).0 h in
      let (full, i) = (ip_block_contains_iff N block address).0 inside in in_block full i

  address_complete :
      {address : Str} {block : Option IpBlock}
      → AddressOk address block
      → (not (is_empty address) && ip_block_contains N block address) ≡ true
  address_complete {address} (in_block {block} full i) =
      (and_iff _ _).1 (rw full, (ip_block_contains_iff N block address).1 (full, i))

  -- The ways in which an egress rule's peer reaches the target, read as the Kubernetes API reads them:
  -- the service's cluster IP, a target pod, or a target pod's IP.
  pub data Reaches (target_namespace : Namespace) (targets : List Pod)
      (cluster_ip policy_namespace : Str) (peer : Peer K) : Type 0 where
    by_cluster_ip :
        AddressOk cluster_ip peer.ip_block
        → Reaches target_namespace targets cluster_ip policy_namespace peer
    by_pod :
        (pod : Pod)
        → Memᴰ pod targets
        → HasSelector K peer
        → NamespaceOk K policy_namespace target_namespace peer.namespace_selector
        → PodOk K pod peer.pod_selector
        → Reaches target_namespace targets cluster_ip policy_namespace peer
    by_pod_ip :
        (pod : Pod)
        → Memᴰ pod targets
        → AddressOk pod.pod_ip peer.ip_block
        → Reaches target_namespace targets cluster_ip policy_namespace peer

  module _ (target_namespace : Namespace) (targets : List Pod) (cluster_ip policy_namespace : Str)
      (filled : is_empty policy_namespace ≡ false) (peer : Peer K) where
    pod_sound :
        (pod : Pod)
        → Memᴰ pod targets
        → pod_allows K N target_namespace policy_namespace peer pod ≡ true
        → Reaches target_namespace targets cluster_ip policy_namespace peer
    pod_sound pod m hit =
        elim (Bool-cases (peer_matches_pod K peer pod target_namespace policy_namespace)) [
          | inl e ↦
              let (has, n, p) =
                (peer_matches_pod_iff K peer pod target_namespace policy_namespace filled).0 e in
              by_pod pod m has n p
          | inr e ↦ by_pod_ip pod m (address_sound peer.ip_block pod.pod_ip (rw e at hit))
        ]

    Reaches-sound :
        egress_peer_allows K N target_namespace targets cluster_ip policy_namespace peer ≡ true
        → Reaches target_namespace targets cluster_ip policy_namespace peer
    Reaches-sound h =
        elim (Bool-cases
          (not (is_empty cluster_ip) && ip_block_contains N peer.ip_block cluster_ip)) [
            | inl e ↦ by_cluster_ip (address_sound peer.ip_block cluster_ip e)
            | inr e ↦
                let (pod, m, hit) =
                  (any_iff (pod_allows K N target_namespace policy_namespace peer) targets).0
                    (rw e at h) in
                pod_sound pod m hit
          ]

    pod_hit :
        (pod : Pod)
        → Memᴰ pod targets
        → pod_allows K N target_namespace policy_namespace peer pod ≡ true
        → egress_peer_allows K N target_namespace targets cluster_ip policy_namespace peer ≡ true
    pod_hit pod m h = ground (
      arith,
      (any_iff (pod_allows K N target_namespace policy_namespace peer) targets).1 (pod, m, h),
    )

    Reaches-complete :
        Reaches target_namespace targets cluster_ip policy_namespace peer
        → egress_peer_allows K N target_namespace targets cluster_ip policy_namespace peer ≡ true
    Reaches-complete (by_cluster_ip a) = rw (address_complete a)
    Reaches-complete (by_pod pod m has n p) = pod_hit pod m (
        rw (
          (peer_matches_pod_iff K peer pod target_namespace policy_namespace filled).1 (has, n, p)))
    Reaches-complete (by_pod_ip pod m a) = pod_hit pod m (ground (arith, address_complete a))

  -- An egress rule of a policy in a named namespace allows the path exactly when its ports allow it
  -- and it has no peers, or one of its peers reaches the service's cluster IP or a target pod.
  pub egress_rule_allows_iff :
      (rule : Rule K) (target_namespace : Namespace) (targets : List Pod) (service : Option Service)
      (ports : List ℤ) (policy_namespace : Str)
      → is_empty policy_namespace ≡ false
      → (egress_rule_allows K N rule target_namespace targets service ports policy_namespace ≡ true)
        ↔ ((ports_allow rule.ports ports ≡ true)
            × ((rule.peers ≡ [])
                ⊎ Exists
                    (Reaches target_namespace targets (service_ip service) policy_namespace)
                    rule.peers))
  unfolding egress_rule_allows
  egress_rule_allows_iff rule tns targets service ports pns filled =
      let (to, from) =
        rule_shape (egress_peer_allows K N tns targets (service_ip service) pns)
          (ports_allow rule.ports ports) rule.peers in
      (
        λ h.
            let (open_ports, k) = to h in
            (
              open_ports,
              elim k [
                | inl e ↦ inl e
                | inr (peer, m, hit) ↦
                    inr
                      (peer, m, Reaches-sound tns targets (service_ip service) pns filled peer hit)
              ],
            ),
        λ (open_ports, k). from (
          open_ports,
          elim k [
            | inl e ↦ inl e
            | inr (peer, m, r) ↦
                inr (peer, m, Reaches-complete tns targets (service_ip service) pns filled peer r)
          ],
        ),
      )

  -- An ingress rule whose ports allow the connection allows a source pod that one of its peers selects
  -- by a pod selector alone, whatever namespace the pod is in: the policy's namespace is not asked for.
  pub ingress_rule_any_namespace :
      (rule : Rule K) (source : Pod) (source_namespace : Namespace) (ports : List ℤ) (peer : Peer K)
      → ports_allow rule.ports ports ≡ true
      → Memᴰ peer rule.peers
      → peer.namespace_selector ≡ none
      → is_some peer.pod_selector ≡ true
      → PodOk K source peer.pod_selector
      → ingress_rule_allows K N rule source source_namespace ports ≡ true
  unfolding ingress_rule_allows
  ingress_rule_any_namespace rule source sns ports peer open_ports m alone has ok =
      (rule_shape (ingress_peer_allows K N source sns) (ports_allow rule.ports ports) rule.peers).1
        (
          open_ports,
          inr (
            peer,
            m,
            ground (
              arith,
              peer_without_namespace K peer source sns alone,
              (pod_iff K peer.pod_selector source).1 ok,
            ),
          ),
        )
