-- ===== src/Native/Ports.antt =====
-- The port part of internal/policy/native/native.go.
use kube_net_mods.Prelude.{
  Bool, true, false, ◌||◌, not, ◌≡◌, refl, ap, ◌∙◌, str_eq_refl, not-false, cons_ne, mem_here, ◌↔◌,
  ◌⊎◌, inl, inr, List, [], ◌∷◌, Option, none, some, Str, codes, str_eq, str_eq_iff, any, any_iff,
  Exists, is_empty, if◌then◌else◌, ℤ, pos, negsuc, int_eq, int_leb, is_pos, arith, ◌≢◌,
}
use kube_net_mods.Cluster.{IntOrString, int_value, string_value}

-- networkingv1.NetworkPolicyPort; a nil pointer is `none`.
pub record PolicyPort : Type 0 where
  pub protocol : Option Str
  pub port : Option IntOrString

unfoldable pub int32_port_from_int : ℤ → Option ℤ
int32_port_from_int value =
    if int_leb value (pos 0) || not (int_leb value (pos 65535)) then none else some value

-- `Type == intstr.Int` and the converted number is the tested port.
abbrev pub port_value_is : IntOrString → ℤ → Bool
port_value_is (int_value v) port = elim (int32_port_from_int v) [
  | none ↦ false
  | some number ↦ int_eq number port
]
port_value_is (string_value s) port = false

abbrev pub other_protocol : Option Str → Bool
other_protocol none = false
other_protocol (some protocol) = not (str_eq protocol (codes "TCP"))

abbrev pub port_matches : Option IntOrString → List ℤ → Bool
port_matches none ports = true
port_matches (some value) ports = any (port_value_is value) ports

-- One round of the loop over the policy's ports.
abbrev pub policy_port_allows : List ℤ → PolicyPort → Bool
policy_port_allows ports p = if other_protocol p.protocol then false else port_matches p.port ports

unfoldable pub ports_allow : List PolicyPort → List ℤ → Bool
unfolding int32_port_from_int str_eq
ports_allow policy_ports ports =
    if is_empty policy_ports || is_empty ports
    then true
    else any (policy_port_allows ports) policy_ports

-- The ports of a TCP connection that a policy's port entry covers: all of them, or one number.
pub data Covers (p : PolicyPort) (port : ℤ) : Type 0 where
  every : p.port ≡ none → Covers p port
  number :
      p.port ≡ some (int_value port)
      → is_pos port ≡ true
      → int_leb port (pos 65535) ≡ true
      → Covers p port

abbrev pub IsTcp : PolicyPort → Type 0
IsTcp p = (p.protocol ≡ none) ⊎ (p.protocol ≡ some (codes "TCP"))

port_value_iff :
    (v : IntOrString) (port : ℤ)
    → (port_value_is v port ≡ true)
      ↔ ((v ≡ int_value port) × (is_pos port ≡ true) × (int_leb port (pos 65535) ≡ true))
unfolding int32_port_from_int
port_value_iff (int_value (pos v)) (pos p) = (ground arith, ground arith)
port_value_iff (int_value (pos v)) (negsuc p) = (ground arith, ground arith)
port_value_iff (int_value (negsuc v)) (pos p) = (ground arith, ground arith)
port_value_iff (int_value (negsuc v)) (negsuc p) = (ground arith, ground arith)
port_value_iff (string_value s) port = (λ h. cc, λ (e, _, _). cc)

tcp_of_test : (o : Option Str) → other_protocol o ≡ false → (o ≡ none) ⊎ (o ≡ some (codes "TCP"))
tcp_of_test none h = inl refl
tcp_of_test (some protocol) h =
    inr (ap some ((str_eq_iff protocol (codes "TCP")).0 (not-false _ h)))

test_of_tcp : (o : Option Str) → (o ≡ none) ⊎ (o ≡ some (codes "TCP")) → other_protocol o ≡ false
test_of_tcp o (inl e) = rw e
test_of_tcp o (inr e) = rw (e, str_eq_refl (codes "TCP"))

module _ (p : PolicyPort) (ports : List ℤ) where
  Covers-of_test :
      (o : Option IntOrString)
      → p.port ≡ o
      → ports ≢ []
      → port_matches o ports ≡ true
      → Exists (Covers p) ports
  Covers-of_test none e filled h = first ports filled
    where
      first : (qs : List ℤ) → qs ≢ [] → Exists (Covers p) qs
      first [] k = absurd (k refl)
      first (q ∷ qs) k = (q, mem_here, every e)
  Covers-of_test (some v) e filled h =
      let (q, m, hit) = (any_iff (port_value_is v) ports).0 h in
      let (same, low, high) = (port_value_iff v q).0 hit in
      (q, m, number (e ∙ ap some same) low high)

  test_of_Covers : Exists (Covers p) ports → port_matches p.port ports ≡ true
  test_of_Covers (q, m, every e) = rw e
  test_of_Covers (q, m, number e low high) = rw e (
      (any_iff (port_value_is (int_value q)) ports).1
        (q, m, (port_value_iff (int_value q) q).1 (refl, low, high)))

  policy_port_iff :
      ports ≢ [] → (policy_port_allows ports p ≡ true) ↔ (IsTcp p × Exists (Covers p) ports)
  policy_port_iff filled = (
    λ h. (tcp_of_test p.protocol (ground arith), Covers-of_test p.port refl filled (ground arith)),
    λ (t, c). rw (test_of_tcp p.protocol t) (test_of_Covers c),
  )

-- An entry list allows a connection on one of `ports` exactly when one of the two lists is empty, or
-- some entry is for TCP and either names no port or has a valid number that is one of `ports`.
pub ports_allow_iff :
    (entries : List PolicyPort) (ports : List ℤ)
    → (ports_allow entries ports ≡ true)
      ↔ ((entries ≡ []) ⊎ (ports ≡ []) ⊎ Exists (λ p. IsTcp p × Exists (Covers p) ports) entries)
unfolding ports_allow
ports_allow_iff [] ports = (λ _. inl refl, λ _. refl)
ports_allow_iff (e ∷ es) [] = (λ _. inr (inl refl), λ _. refl)
ports_allow_iff (e ∷ es) (q ∷ qs) = (
  λ h.
      let (p, m, hit) = (any_iff (policy_port_allows (q ∷ qs)) (e ∷ es)).0 h in
      inr (inr (p, m, (policy_port_iff p (q ∷ qs) cons_ne).0 hit)),
  elim [
    | inl k ↦ absurd (cons_ne k)
    | inr (inl k) ↦ absurd (cons_ne k)
    | inr (inr (p, m, c)) ↦
        (any_iff (policy_port_allows (q ∷ qs)) (e ∷ es)).1
          (p, m, (policy_port_iff p (q ∷ qs) cons_ne).1 c)
  ],
)
