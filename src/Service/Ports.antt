-- ===== src/Service/Ports.antt =====
-- The ports of a connection through a Service (internal/check/service_target.go and service_policy.go).
use kube_net_mods.Prelude.{
  Bool, true, false, ◌&&◌, not, ◌≡◌, refl, sym, ◌∙◌, ◌↔◌, ◌⊎◌, inl, inr, List, [], ◌∷◌, ◌++◌, map,
  Option, none, some, Str, str_eq, str_eq_iff, is_empty, if◌then◌else◌, any, any_iff, find, Exists,
  arith, ℤ, pos, negsuc, int_eq, int_eq_iff, int_leb, is_pos, Bool-cases, Option-cases, List-cases,
  Memᴰ, mem_here, mem_there, mem_inv, mem-append_left, mem-append_right, mem-append_inv, subst,
}
use mathlib.Core.Option.{some-injective}
use kube_net_mods.Cluster.{
  IntOrString, int_value, string_value, Pod, Container, Service, ServicePort,
}
use kube_net_mods.Native.Ports.{int32_port_from_int}
use kube_net_mods.Service.Selection.{selected, missing, panic, select_service_port}

-- type containerPort
pub record PodPort : Type 0 where
  pub pod : Str
  pub port_name : Str
  pub port : ℤ
  pub protocol : Str
  pub container : Str

ports_of : Pod → List Container → List PodPort
ports_of pod [] = []
ports_of pod (c ∷ cs) =
    map
      (λ p. record {
        pod = pod.name;
        port_name = p.name;
        port = p.number;
        protocol = p.protocol;
        container = c.name;
      })
      c.ports
    ++ ports_of pod cs

unfoldable pub collect_container_ports : List Pod → List PodPort
unfolding ports_of
collect_container_ports [] = []
collect_container_ports (pod ∷ pods) = ports_of pod pod.containers ++ collect_container_ports pods

-- resolvedTargetPort; `none` is `0, false`.
unfoldable pub resolved_target_port : ServicePort → List PodPort → Option ℤ
unfolding int32_port_from_int str_eq
resolved_target_port port ports = elim port.target_port [
  | int_value v ↦ int32_port_from_int v
  | string_value name ↦ elim (find (λ p. str_eq p.port_name name && is_pos p.port) ports) [
    | none ↦ none
    | some p ↦ some p.port
  ]
]

abbrev pub target_is : IntOrString → PodPort → Bool
target_is (int_value v) p = elim (int32_port_from_int v) [
  | none ↦ false
  | some number ↦ int_eq number p.port
]
target_is (string_value name) p = str_eq name p.port_name

unfoldable pub target_port_matches : IntOrString → List PodPort → Bool
unfolding int32_port_from_int str_eq
target_port_matches target ports = any (target_is target) ports

-- `add` of selectedConnectionPortCandidates: a positive number that is new.
unfoldable pub add_port : ℤ → List ℤ → List ℤ
add_port value out =
    if is_pos value && not (any (λ p. int_eq p value) out) then out ++ value ∷ [] else out

unfoldable pub add_named : Str → List PodPort → List ℤ → List ℤ
unfolding add_port str_eq
add_named name [] out = out
add_named name (p ∷ ports) out =
    add_named name ports (if str_eq p.port_name name then add_port p.port out else out)

add_target : IntOrString → List PodPort → List ℤ → List ℤ
unfolding add_port add_named int32_port_from_int
add_target (int_value v) ports out = elim (int32_port_from_int v) [
  | none ↦ out
  | some number ↦ add_port number out
]
add_target (string_value name) ports out = add_named name ports out

-- sort.Slice by <
unfoldable pub insert_port : ℤ → List ℤ → List ℤ
insert_port p [] = p ∷ []
insert_port p (q ∷ qs) =
    let later = q ∷ insert_port p qs in if int_leb p q then p ∷ q ∷ qs else later

unfoldable pub sort_ports : List ℤ → List ℤ
unfolding insert_port
sort_ports [] = []
sort_ports (p ∷ ps) = insert_port p (sort_ports ps)

unfoldable pub selected_connection_port_candidates : Option Service → List PodPort → ℤ → List ℤ
unfolding select_service_port add_target add_port sort_ports
selected_connection_port_candidates none ports requested = []
selected_connection_port_candidates (some service) ports requested =
    if is_empty service.ports then [] else elim (select_service_port service requested) [
      | selected port ↦ sort_ports (add_target port.target_port ports (add_port port.port []))
      | missing ↦ []
      | panic ↦ []
    ]

mem-add_port :
    (x value : ℤ) (out : List ℤ)
    → Memᴰ x (add_port value out) ↔ (Memᴰ x out ⊎ ((x ≡ value) × (is_pos value ≡ true)))
unfolding add_port
mem-add_port x value out = elim (Bool-cases (is_pos value)) [
  | inr e ↦ rw e (inl, λ h. elim h [ inl m ↦ m | inr (_, t) ↦ cc ])
  | inl e ↦ elim (Bool-cases (any (λ p. int_eq p value) out)) [
    | inl seen ↦
        rw (e, seen)
          (
            inl,
            λ h. elim h [
              | inl m ↦ m
              | inr (q, _) ↦
                  let (y, m, hit) = (any_iff (λ p. int_eq p value) out).0 seen in
                  subst (λ z. Memᴰ z out) ((int_eq_iff y value).0 hit ∙ sym q) m
            ],
          )
    | inr new ↦
        rw (e, new)
          (
            λ m. elim (mem-append_inv out m) [
              | inl n ↦ inl n
              | inr n ↦ elim (mem_inv n) [ inl q ↦ inr (q, refl) | inr k ↦ elim k [ ] ]
            ],
            λ h. elim h [
              | inl m ↦ mem-append_left _ m
              | inr (q, _) ↦ mem-append_right out (Memᴰ.head q)
            ],
          )
  ]
]

-- A port number that the target port names: its own valid number, or the positive number of a
-- container port with its name.
abbrev pub Targets : IntOrString → List PodPort → ℤ → Type 0
Targets (int_value v) ports x = int32_port_from_int v ≡ some x
Targets (string_value name) ports x =
    Exists (λ p. (p.port_name ≡ name) × (x ≡ p.port) × (is_pos x ≡ true)) ports

named_cons :
    (name : Str) (p : PodPort) (ports : List PodPort) (x : ℤ)
    → Targets (string_value name) (p ∷ ports) x ↔ (
        ((p.port_name ≡ name) × (x ≡ p.port) × (is_pos x ≡ true))
        ⊎ Targets (string_value name) ports x)
named_cons name p ports x = (
  λ (q, m, h). elim (mem_inv m) [
    | inl e ↦ inl (subst (λ z. (z.port_name ≡ name) × (x ≡ z.port) × (is_pos x ≡ true)) e h)
    | inr n ↦ inr (q, n, h)
  ],
  λ h. elim h [ inl k ↦ (p, mem_here, k) | inr (q, m, k) ↦ (q, mem_there m, k) ],
)

mem-add_named :
    (name : Str) (ports : List PodPort) (out : List ℤ) (x : ℤ)
    → Memᴰ x (add_named name ports out) ↔ (Memᴰ x out ⊎ Targets (string_value name) ports x)
unfolding add_named
mem-add_named name [] out x = (inl, λ h. elim h [ inl m ↦ m | inr (q, m, _) ↦ elim m [ ] ])
mem-add_named name (p ∷ ports) out x =
    let (split, join) = named_cons name p ports x in
    elim (Bool-cases (str_eq p.port_name name)) [
      | inl e ↦
          let (to, from) = mem-add_named name ports (add_port p.port out) x in
          let (in_to, in_from) = mem-add_port x p.port out in
          rw e (
            λ m. elim (to m) [
              | inl n ↦ elim (in_to n) [
                | inl k ↦ inl k
                | inr (q, t) ↦ inr (join (inl ((str_eq_iff _ _).0 e, q, rw q t)))
              ]
              | inr t ↦ inr (join (inr t))
            ],
            λ h. elim h [
              | inl m ↦ from (inl (in_from (inl m)))
              | inr t ↦ elim (split t) [
                | inl (_, q, k) ↦ from (inl (in_from (inr (q, subst (λ z. is_pos z ≡ true) q k))))
                | inr k ↦ from (inr k)
              ]
            ],
          )
      | inr e ↦
          let (to, from) = mem-add_named name ports out x in
          rw e (
            λ m. elim (to m) [ inl n ↦ inl n | inr t ↦ inr (join (inr t)) ],
            λ h. elim h [
              | inl m ↦ from (inl m)
              | inr t ↦ elim (split t) [
                | inl (k, _, _) ↦ absurd (cc (e, (str_eq_iff p.port_name name).1 k))
                | inr k ↦ from (inr k)
              ]
            ],
          )
    ]

valid_pos : (v x : ℤ) → int32_port_from_int v ≡ some x → is_pos x ≡ true
unfolding int32_port_from_int
valid_pos (pos v) (pos x) h = ground arith
valid_pos (pos v) (negsuc x) h = ground arith
valid_pos (negsuc v) x h = ground arith

mem-add_target :
    (target : IntOrString) (ports : List PodPort) (out : List ℤ) (x : ℤ)
    → Memᴰ x (add_target target ports out) ↔ (Memᴰ x out ⊎ Targets target ports x)
unfolding add_target
mem-add_target (string_value name) ports out x = mem-add_named name ports out x
mem-add_target (int_value v) ports out x = elim (Option-cases (int32_port_from_int v)) [
  | inl e ↦ rw (e, add_target) (inl, λ h. elim h [ inl m ↦ m | inr t ↦ cc ])
  | inr (y, e) ↦
      let (to, from) = mem-add_port x y out in
      rw (e, add_target)
        (
          λ m. elim (to m) [ inl n ↦ inl n | inr (q, _) ↦ inr (rw q refl) ],
          λ h. elim h [
            | inl m ↦ from (inl m)
            | inr t ↦ from (inr (sym (some-injective _ _ t), valid_pos v y e))
          ],
        )
]

mem-insert_port : (x p : ℤ) (ps : List ℤ) → Memᴰ x (insert_port p ps) ↔ ((x ≡ p) ⊎ Memᴰ x ps)
unfolding insert_port
mem-insert_port x p [] = (mem_inv, λ h. elim h [ inl e ↦ Memᴰ.head e | inr m ↦ elim m [ ] ])
mem-insert_port x p (q ∷ qs) = elim (Bool-cases (int_leb p q)) [
  | inl e ↦ rw e (mem_inv, λ h. elim h [ inl k ↦ Memᴰ.head k | inr m ↦ mem_there m ])
  | inr e ↦
      let (to, from) = mem-insert_port x p qs in
      rw e (
        λ m. elim (mem_inv m) [
          | inl k ↦ inr (Memᴰ.head k)
          | inr n ↦ elim (to n) [ inl k ↦ inl k | inr k ↦ inr (mem_there k) ]
        ],
        λ h. elim h [
          | inl k ↦ mem_there (from (inl k))
          | inr m ↦ elim (mem_inv m) [ inl k ↦ Memᴰ.head k | inr n ↦ mem_there (from (inr n)) ]
        ],
      )
]

mem-sort_ports : (x : ℤ) (ps : List ℤ) → Memᴰ x (sort_ports ps) ↔ Memᴰ x ps
unfolding sort_ports
mem-sort_ports x [] = (λ m. m, λ m. m)
mem-sort_ports x (p ∷ ps) =
    let (to, from) = mem-insert_port x p (sort_ports ps) in
    let (out, back) = mem-sort_ports x ps in
    (
      λ m. elim (to m) [ inl e ↦ Memᴰ.head e | inr n ↦ mem_there (out n) ],
      λ m. elim (mem_inv m) [ inl e ↦ from (inl e) | inr n ↦ from (inr (back n)) ],
    )

never :
    (service : Service) (requested : ℤ) (port : ServicePort)
    → service.ports ≡ []
    → ¬ (select_service_port service requested ≡ selected port)
unfolding select_service_port
never service requested port e h = elim (Bool-cases (int_eq requested (pos 0))) [
  | inl f ↦
      let q : select_service_port service requested ≡ panic = rw (f, e, select_service_port) refl in
      cc
  | inr f ↦
      let q : select_service_port service requested ≡ missing =
        rw (f, e, select_service_port) refl in
      cc
]

-- Through the selected port a connection may use its own number, when positive, and the numbers that
-- its target port names, and no other.
pub selected_connection_port_candidates_iff :
    (service : Service) (ports : List PodPort) (requested : ℤ) (port : ServicePort) (x : ℤ)
    → select_service_port service requested ≡ selected port
    → Memᴰ x (selected_connection_port_candidates (some service) ports requested)
      ↔ (((x ≡ port.port) × (is_pos port.port ≡ true)) ⊎ Targets port.target_port ports x)
unfolding selected_connection_port_candidates
selected_connection_port_candidates_iff service ports requested port x h =
    elim (List-cases service.ports) [
      | inl e ↦ absurd (never service requested port e h)
      | inr (p, ps, e) ↦
          let filled : is_empty service.ports ≡ false = rw e refl in
          let (s_to, s_from) =
            mem-sort_ports x (add_target port.target_port ports (add_port port.port [])) in
          let (t_to, t_from) = mem-add_target port.target_port ports (add_port port.port []) x in
          let (a_to, a_from) = mem-add_port x port.port [] in
          rw (filled, h, selected_connection_port_candidates)
            (
              λ m. elim (t_to (s_to m)) [
                | inl n ↦ elim (a_to n) [ inl k ↦ elim k [ ] | inr k ↦ inl k ]
                | inr t ↦ inr t
              ],
              λ c. s_from (t_from (elim c [ inl k ↦ inl (a_from (inr k)) | inr t ↦ inr t ])),
            )
    ]
