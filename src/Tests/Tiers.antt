-- ===== src/Tests/Tiers.antt =====
-- The laws of Calico's policies, applied to a tier "security" whose policy lets UDP pass and a default
-- tier that allows everything.
use kube_net_mods.Prelude.{
  true, false, ◌≡◌, refl, ◌↔◌, ◌⊎◌, List, [], ◌∷◌, none, some, Str, codes, str_eq, ℤ, pos, negsuc,
  is_empty, Exists, Each, Memᴰ, arith, cons_ne,
}
use kube_net_mods.Native.Ports.{int32_port_from_int}
use kube_net_mods.Calico.Value.{Value, Values, Fields, Item, array, object, text}
use kube_net_mods.Calico.Ports.{
  PortCandidate, scan_int, text_token_matches, calico_entity_ports_match,
}
use kube_net_mods.Calico.Ports.Ranges.{text_token_matches_iff}
use kube_net_mods.Calico.Ports.Matching.{Matched, calico_entity_ports_match_iff}
use kube_net_mods.Calico.Paths.{World, TestedPath, egress}
use kube_net_mods.Calico.Order.Sorted.{Ranked}
use kube_net_mods.Calico.Order.First.{
  Precedes, Follows, effective_calico_match_after_pass-sort_rule_matches,
}
use kube_net_mods.Calico.Order.{RuleMatch, sort_rule_matches, effective_calico_match_after_pass}
use kube_net_mods.Calico.Order.Ends.{Ordered, Ended, effective_calico_match_after_pass-Ended}
use kube_net_mods.Calico.Dns.{dns_effective}
use kube_net_mods.Calico.Dns.Chain.{Chained, dns_effective_iff}
use kube_net_mods.Calico.Decision.{rules_of}
use kube_net_mods.Calico.Verdict.{calico_direction_decision}
use kube_net_mods.Calico.Verdict.Laws.{calico_direction_decision_unmatched}
use kube_net_mods.Tests.Data.{int_less, integers, text_addresses, client, server, shop, prod, web}

int_less_irreflexive : (a : ℤ) → int_less a a ≡ false
int_less_irreflexive (pos a) = ground arith
int_less_irreflexive (negsuc a) = ground arith

int_less_transitive : (a b c : ℤ) → int_less a b ≡ true → int_less b c ≡ true → int_less a c ≡ true
int_less_transitive (pos a) (pos b) (pos c) h k = ground arith
int_less_transitive (pos a) (pos b) (negsuc c) h k = ground arith
int_less_transitive (pos a) (negsuc b) (pos c) h k = ground arith
int_less_transitive (pos a) (negsuc b) (negsuc c) h k = ground arith
int_less_transitive (negsuc a) (pos b) (pos c) h k = ground arith
int_less_transitive (negsuc a) (pos b) (negsuc c) h k = ground arith
int_less_transitive (negsuc a) (negsuc b) (pos c) h k = ground arith
int_less_transitive (negsuc a) (negsuc b) (negsuc c) h k = ground arith

ordered : Ordered integers
ordered = record { irreflexive = int_less_irreflexive; transitive = int_less_transitive }

abbrev world : World integers
world = record {
  netip = text_addresses;
  print = λ v. [];
  parse = λ raw. some (λ labels. true);
  network_sets = [];
  service_accounts = [];
}

abbrev path : TestedPath
path = record {
  source_namespace = shop;
  source = client;
  target_namespace = prod;
  targets = server ∷ [];
  service = some web;
  ports = pos 80 ∷ pos 8080 ∷ [];
}

abbrev rule_with : Str → Str → Value integers
rule_with action protocol = object (
    Fields.field (codes "action") (text action)
      (Fields.field (codes "protocol") (text protocol) Fields.no_field))

abbrev policy_in : Str → Str → Value integers → Item integers
policy_in name tier rule = record {
  name = name;
  namespace = [];
  labels = [];
  spec =
      Fields.field (codes "tier") (text tier)
        (Fields.field (codes "egress") (array (Values.item rule Values.end)) Fields.no_field);
}

abbrev udp_only : Item integers
udp_only = policy_in (codes "udp-only") (codes "security") (rule_with (codes "Allow") (codes "UDP"))

abbrev allow_all : Item integers
allow_all =
    policy_in (codes "allow-all") (codes "default") (rule_with (codes "Allow") (codes "TCP"))

calico_direction_decision_unmatched_example :
    (calico_direction_decision integers world
      (allow_all ∷ udp_only ∷ allow_all ∷ [])
      egress
      []
      []
      path).status
    ≡ (calico_direction_decision integers world
        (allow_all ∷ allow_all ∷ [])
        egress
        []
        []
        path).status
unfolding rules_of
calico_direction_decision_unmatched_example =
    calico_direction_decision_unmatched integers world udp_only (allow_all ∷ []) (allow_all ∷ [])
      egress [] [] path cons_ne refl

abbrev a_match : Str → ℤ → Str → RuleMatch integers
a_match policy order action = record {
  policy = policy;
  tier = policy;
  tier_order = order;
  policy_order = pos 100;
  rule_index = 1;
  action = action;
  reason = [];
}

effective_calico_match_after_pass-Ended_example :
    Ended integers ordered
      (a_match (codes "a") (pos 1) (codes "pass") ∷ a_match (codes "b") (pos 2) (codes "deny") ∷ [])
      (effective_calico_match_after_pass integers (
        a_match (codes "a") (pos 1) (codes "pass")
        ∷ a_match (codes "b") (pos 2) (codes "deny")
        ∷ []))
effective_calico_match_after_pass-Ended_example =
    effective_calico_match_after_pass-Ended integers ordered
      (a_match (codes "a") (pos 1) (codes "pass")) (a_match (codes "b") (pos 2) (codes "deny") ∷ [])

abbrev port_8500 : PortCandidate
port_8500 = record { number = pos 8500; name = [] }

-- Port 8500 is in the range, and is not matched.
text_token_matches_iff_example : (text_token_matches (codes "8000:9000") port_8500 ≡ true) ↔ (
    ((n : ℤ) × (scan_int (codes "8000:9000") ≡ some n) × (int32_port_from_int n ≡ some (pos 8500)))
    ⊎ ((scan_int (codes "8000:9000") ≡ none)
        × (is_empty port_8500.name ≡ false)
        × (codes "8000:9000" ≡ port_8500.name)))
text_token_matches_iff_example = text_token_matches_iff (codes "8000:9000") port_8500

abbrev web_ports : Fields integers
web_ports = Fields.field (codes "ports") (array (Values.item (text (codes "8500")) Values.end)) (
    Fields.field (codes "notPorts") (array (Values.item (text (codes "22")) Values.end))
      Fields.no_field)

calico_entity_ports_match_iff_example :
    (calico_entity_ports_match integers (some web_ports) (port_8500 ∷ []) ≡ true)
    ↔ Exists
        (λ p.
          Matched integers (text (codes "8500") ∷ []) p
          × (¬ Matched integers (text (codes "22") ∷ []) p))
        (port_8500 ∷ [])
unfolding str_eq
calico_entity_ports_match_iff_example =
    calico_entity_ports_match_iff integers web_ports (port_8500 ∷ []) (text (codes "8500"))
      Values.end (Values.item (text (codes "22")) Values.end) refl refl refl

int_less_negative : (a b c : ℤ) → int_less a b ≡ false → int_less b c ≡ false → int_less a c ≡ false
int_less_negative (pos a) (pos b) (pos c) h k = ground arith
int_less_negative (pos a) (pos b) (negsuc c) h k = ground arith
int_less_negative (pos a) (negsuc b) (pos c) h k = ground arith
int_less_negative (pos a) (negsuc b) (negsuc c) h k = ground arith
int_less_negative (negsuc a) (pos b) (pos c) h k = ground arith
int_less_negative (negsuc a) (pos b) (negsuc c) h k = ground arith
int_less_negative (negsuc a) (negsuc b) (pos c) h k = ground arith
int_less_negative (negsuc a) (negsuc b) (negsuc c) h k = ground arith

ranked : Ranked integers
ranked = record { order = ordered; negative = int_less_negative }

abbrev unsorted : List (RuleMatch integers)
unsorted =
    a_match (codes "a") (pos 1) (codes "pass") ∷ a_match (codes "b") (pos 2) (codes "allow") ∷ []

abbrev late_deny : RuleMatch integers
late_deny = a_match (codes "c") (pos 3) (codes "deny")

effective_calico_match_after_pass-sort_rule_matches_example :
    (first : RuleMatch integers) × Memᴰ first (late_deny ∷ unsorted)
    × Each (λ b. ¬ Precedes integers b first) (late_deny ∷ unsorted)
    × Follows integers (late_deny ∷ unsorted) first (
        effective_calico_match_after_pass integers
          (sort_rule_matches integers (late_deny ∷ unsorted)))
effective_calico_match_after_pass-sort_rule_matches_example =
    effective_calico_match_after_pass-sort_rule_matches integers ranked late_deny unsorted

abbrev first_pass : RuleMatch integers
first_pass = a_match (codes "a") (pos 1) (codes "pass")

abbrev after_pass : List (RuleMatch integers)
after_pass =
    a_match (codes "b") (pos 2) (codes "pass") ∷ a_match (codes "c") (pos 3) (codes "allow") ∷ []

dns_effective_iff_example :
    (dns_effective integers (first_pass ∷ after_pass)
      ≡ effective_calico_match_after_pass integers (first_pass ∷ after_pass))
    ↔ (¬ Chained integers ordered first_pass after_pass)
dns_effective_iff_example = dns_effective_iff integers ordered first_pass after_pass
