-- ===== src/Runtime/Urls.antt =====
-- BuildServiceURLs (internal/runtime/runtime.go): the URLs under which a Service is probed.
use kube_net_mods.Prelude.{
  Bool, true, false, ◌&&◌, not, ◌≡◌, ◌≢◌, refl, ap, ◌∙◌, ◌↔◌, ◌⊎◌, inl, inr, List, [], ◌∷◌, Option,
  none, some, Str, codes, str_eq, str_eq_iff, has_prefix, is_empty, if◌then◌else◌, Bool-cases,
  concat, ℤ, pos, int_eq, decimal, Memᴰ, mem_inv, cons_ne, ◌==◌, ==_iff, and_iff, not_iff, not-true,
}
use kube_net_mods.Cluster.{Service, ServicePort}

abbrev or_else : Str → Str → Str
or_else s default = if is_empty s then default else s

-- The path starts with "/".
unfoldable pub rooted : Str → Str
unfolding has_prefix
rooted path = if has_prefix path (codes "/") then path else b'/' ∷ path

abbrev pub normal_path : Str → Str
normal_path path = rooted (or_else path (codes "/"))

abbrev first_port : ℤ → List ServicePort → ℤ
first_port port [] = port
first_port port (p ∷ ps) = if int_eq port (pos 0) then p.port else port

abbrev pub url : Str → Str → ℤ → Str → Str
url scheme host port path =
    concat (scheme ∷ codes "://" ∷ host ∷ codes ":" ∷ decimal port ∷ path ∷ [])

abbrev pub cluster_name : Str → Str → Str
cluster_name namespace name =
    concat (name ∷ codes "." ∷ namespace ∷ codes ".svc.cluster.local" ∷ [])

unfoldable pub build_service_urls : Option Service → Str → Str → Str → Str → ℤ → List Str
unfolding str_eq rooted concat decimal
build_service_urls none namespace name scheme path port = []
build_service_urls (some service) namespace name scheme path port =
    let scheme = or_else scheme (codes "http") in
    let path = normal_path path in
    let port = first_port port service.ports in
    if str_eq service.kind (codes "ExternalName")
    then if is_empty service.external_name
      then []
      else url scheme service.external_name port path ∷ []
    else let fqdn = cluster_name namespace name in
      let by_ip =
        if not (is_empty service.cluster_ip) && not (str_eq service.cluster_ip (codes "None"))
        then url scheme service.cluster_ip port path ∷ []
        else [] in
      url scheme fqdn port path ∷ by_ip

-- The hosts of a Service: an ExternalName Service has its external name, any other its name in the
-- cluster and, unless it is headless, its cluster IP.
abbrev pub HostOf : Service → Str → Str → Str → Type 0
HostOf service namespace name host =
    ((service.kind ≡ codes "ExternalName") × (host ≡ service.external_name) × (host ≢ []))
    ⊎ ((service.kind ≢ codes "ExternalName")
        × ((host ≡ cluster_name namespace name)
            ⊎ ((host ≡ service.cluster_ip) × (host ≢ []) × (host ≢ codes "None"))))

mem_unless :
    {A : Type 0} (b : Bool) (x y : A) → Memᴰ x (if b then [] else y ∷ []) ↔ ((b ≡ false) × (x ≡ y))
mem_unless true x y = (λ m. elim m [ ], λ (e, _). cc)
mem_unless false x y =
    (λ m. elim (mem_inv m) [ inl e ↦ (refl, e) | inr n ↦ elim n [ ] ], λ (_, e). Memᴰ.head e)

mem_when :
    {A : Type 0} (b : Bool) (x y z : A)
    → Memᴰ x (z ∷ (if b then y ∷ [] else [])) ↔ ((x ≡ z) ⊎ ((b ≡ true) × (x ≡ y)))
mem_when true x y z = (
  λ m. elim (mem_inv m) [
    | inl e ↦ inl e
    | inr n ↦ elim (mem_inv n) [ inl e ↦ inr (refl, e) | inr k ↦ elim k [ ] ]
  ],
  λ h. elim h [ inl e ↦ Memᴰ.head e | inr (_, e) ↦ Memᴰ.tail (Memᴰ.head e) ],
)
mem_when false x y z = (
  λ m. elim (mem_inv m) [ inl e ↦ inl e | inr n ↦ elim n [ ] ],
  λ h. elim h [ inl e ↦ Memᴰ.head e | inr (f, e) ↦ cc ],
)

is_empty_iff : {A : Type 0} (s : List A) → (is_empty s ≡ false) ↔ (s ≢ [])
is_empty_iff [] = (λ h. cc, λ h. absurd (h refl))
is_empty_iff (x ∷ s) = (λ _. cons_ne, λ _. refl)

with_ip_iff :
    (ip : Str)
    → ((not (is_empty ip) && not (str_eq ip (codes "None"))) ≡ true)
      ↔ ((ip ≢ []) × (ip ≢ codes "None"))
with_ip_iff ip = (
  λ h.
      let (a, b) = (and_iff _ _).0 h in
      ((is_empty_iff ip).0 (not-true _ a), λ e. (not_iff _).0 b ((str_eq_iff _ _).1 e)),
  λ (a, b). (and_iff _ _).1 (
    (not_iff _).1 (λ t. cc ((is_empty_iff ip).1 a, t)),
    (not_iff _).1 (λ t. b ((str_eq_iff _ _).0 t)),
  ),
)

-- The URLs are exactly those of the Service's hosts, with the scheme, the port and the path that
-- default to "http", the first port and "/".
pub build_service_urls_iff :
    (service : Service) (namespace name scheme path : Str) (port : ℤ) (u : Str)
    → Memᴰ u (build_service_urls (some service) namespace name scheme path port) ↔ (
        (host : Str) × HostOf service namespace name host
        × (u
            ≡ url
                (or_else scheme (codes "http"))
                host
                (first_port port service.ports)
                (normal_path path)))
unfolding build_service_urls
build_service_urls_iff service namespace name scheme path port u =
    let at : Str → Str = λ host.
      url (or_else scheme (codes "http")) host (first_port port service.ports) (normal_path path) in
    let full = cluster_name namespace name in
    elim (Bool-cases (str_eq service.kind (codes "ExternalName"))) [
      | inl e ↦
          let is_ext = (str_eq_iff _ _).0 e in
          let (to, from) =
            mem_unless (is_empty service.external_name) u (at service.external_name) in
          rw (e, build_service_urls)
            (
              λ m.
                  let (f, q) = to m in
                  (
                    service.external_name,
                    inl (is_ext, refl, (is_empty_iff service.external_name).0 f),
                    q,
                  ),
              λ (host, h, q). elim h [
                | inl (_, f, n) ↦
                    from ((is_empty_iff service.external_name).1 (λ z. n (f ∙ z)), q ∙ ap at f)
                | inr (n, _) ↦ absurd (n is_ext)
              ],
            )
      | inr e ↦
          let not_ext : service.kind ≢ codes "ExternalName" = λ q. cc (e, (str_eq_iff _ _).1 q) in
          let (to, from) =
            mem_when
              (not (is_empty service.cluster_ip) && not (str_eq service.cluster_ip (codes "None")))
              u (at service.cluster_ip) (at full) in
          let (ip_to, ip_from) = with_ip_iff service.cluster_ip in
          rw (e, build_service_urls)
            (
              λ m. elim (to m) [
                | inl q ↦ (full, inr (not_ext, inl refl), q)
                | inr (b, q) ↦
                    let (n, k) = ip_to b in (service.cluster_ip, inr (not_ext, inr (refl, n, k)), q)
              ],
              λ (host, h, q). elim h [
                | inl (k, _, _) ↦ absurd (not_ext k)
                | inr (_, inl f) ↦ from (inl (q ∙ ap at f))
                | inr (_, inr (f, n, k)) ↦
                    from (inr (ip_from (λ z. n (f ∙ z), λ z. k (f ∙ z)), q ∙ ap at f))
              ],
            )
    ]

-- The path of every URL starts with "/".
pub normal_path_rooted : (path : Str) → (rest : Str) × (normal_path path ≡ b'/' ∷ rest)
unfolding rooted has_prefix
normal_path_rooted [] = ([], refl)
normal_path_rooted (c ∷ s) = elim (Bool-cases (c == b'/')) [
  | inl e ↦ (s, rw e (ap (λ x. x ∷ s) ((==_iff _ _).0 e)))
  | inr e ↦ (c ∷ s, rw e refl)
]
