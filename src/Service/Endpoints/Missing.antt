-- ===== src/Service/Endpoints/Missing.antt =====
-- Which addresses checkEndpoints reports as missing (internal/check/service_target.go).
use kube_net_mods.Prelude.{
  Bool, true, false, ◌&&◌, not, ◌≡◌, refl, sym, ◌↔◌, inl, inr, List, [], ◌∷◌, Str, str_eq,
  str_eq_iff, is_empty, any_iff, Exists, Bool-cases, Memᴰ, mem_here, mem_there, mem_inv, and_iff,
  not-true, subst, mem-sort, sort-mem,
}
use kube_net_mods.Cluster.{Pod}
use kube_net_mods.Runtime.Probe.{pod_ready}
use kube_net_mods.Service.Endpoints.{in_list, ready_pod_ips, not_listed, missing_ips}

in_list_iff : (values : List Str) (s : Str) → (in_list values s ≡ true) ↔ Memᴰ s values
in_list_iff values s = (
  λ h.
      let (x, m, e) = (any_iff (λ v. str_eq v s) values).0 h in
      subst (λ z. Memᴰ z values) ((str_eq_iff x s).0 e) m,
  λ m. (any_iff (λ v. str_eq v s) values).1 (s, m, (str_eq_iff s s).1 refl),
)

-- A ready pod has the address.
abbrev pub Serves : Str → Pod → Type 0
Serves ip pod = (pod.pod_ip ≡ ip) × (is_empty ip ≡ false) × (pod_ready pod ≡ true)

ready_pod_ips_sound :
    (ip : Str) (pods : List Pod) → Memᴰ ip (ready_pod_ips pods) → Exists (Serves ip) pods
unfolding ready_pod_ips
ready_pod_ips_sound ip [] m = elim m [ ]
ready_pod_ips_sound ip (pod ∷ pods) m =
    elim (Bool-cases (
      not (is_empty pod.pod_ip)
      && pod_ready pod
      && not (in_list (ready_pod_ips pods) pod.pod_ip))) [
        | inr e ↦ let (q, n, h) = ready_pod_ips_sound ip pods (rw e at m) in (q, mem_there n, h)
        | inl e ↦ elim (mem_inv (rw e at m)) [
          | inr k ↦ let (q, n, h) = ready_pod_ips_sound ip pods k in (q, mem_there n, h)
          | inl f ↦
              let (both, _) = (and_iff _ _).0 e in
              let (given, up) = (and_iff _ _).0 both in
              (
                pod,
                mem_here,
                (sym f, subst (λ z. is_empty z ≡ false) (sym f) (not-true _ given), up),
              )
        ]
      ]

ready_pod_ips_complete :
    (ip : Str) (pods : List Pod) → Exists (Serves ip) pods → Memᴰ ip (ready_pod_ips pods)
unfolding ready_pod_ips
ready_pod_ips_complete ip [] (q, m, h) = elim m [ ]
ready_pod_ips_complete ip (pod ∷ pods) (q, m, h) = elim (mem_inv m) [
  | inr n ↦ later (ready_pod_ips_complete ip pods (q, n, h))
  | inl e ↦ here (subst (Serves ip) e h)
]
  where
    test : Bool
    test =
        not (is_empty pod.pod_ip) && pod_ready pod && not (in_list (ready_pod_ips pods) pod.pod_ip)

    later : Memᴰ ip (ready_pod_ips pods) → Memᴰ ip (ready_pod_ips (pod ∷ pods))
    later n = elim (Bool-cases test) [ inl t ↦ rw t (mem_there n) | inr t ↦ rw t n ]

    here : Serves ip pod → Memᴰ ip (ready_pod_ips (pod ∷ pods))
    here (e, given, up) = elim (Bool-cases (in_list (ready_pod_ips pods) ip)) [
      | inl seen ↦ later ((in_list_iff (ready_pod_ips pods) ip).0 seen)
      | inr new ↦ rw (e, given, up, new) mem_here
    ]

mem-not_listed :
    (ready ips : List Str) (ip : Str)
    → Memᴰ ip (not_listed ready ips) ↔ (Memᴰ ip ips × (¬ Memᴰ ip ready))
unfolding not_listed
mem-not_listed ready [] ip = (λ m. elim m [ ], λ (m, _). elim m [ ])
mem-not_listed ready (x ∷ xs) ip =
    let (to, from) = mem-not_listed ready xs ip in
    let (seen, unseen) = in_list_iff ready x in
    elim (Bool-cases (in_list ready x)) [
      | inl e ↦ rw e (
        λ m. let (n, h) = to m in (mem_there n, h),
        λ (m, h). elim (mem_inv m) [
          | inl f ↦ absurd (h (subst (λ z. Memᴰ z ready) (sym f) (seen e)))
          | inr n ↦ from (n, h)
        ],
      )
      | inr e ↦ rw e (
        λ m. elim (mem_inv m) [
          | inl f ↦ (Memᴰ.head f, λ n. cc (e, unseen (subst (λ z. Memᴰ z ready) f n)))
          | inr n ↦ let (k, h) = to n in (mem_there k, h)
        ],
        λ (m, h). elim (mem_inv m) [ inl f ↦ Memᴰ.head f | inr n ↦ mem_there (from (n, h)) ],
      )
    ]

-- The addresses that the warning names are exactly those of the ready pods that no ready endpoint has.
pub missing_ips_iff :
    (ready : List Str) (pods : List Pod) (ip : Str)
    → Memᴰ ip (missing_ips ready pods) ↔ (Exists (Serves ip) pods × (¬ Memᴰ ip ready))
unfolding missing_ips
missing_ips_iff ready pods ip =
    let (to, from) = mem-not_listed ready (ready_pod_ips pods) ip in
    (
      λ m. let (n, h) = to (sort-mem _ m) in (ready_pod_ips_sound ip pods n, h),
      λ (x, h). mem-sort _ (from (ready_pod_ips_complete ip pods x, h)),
    )
