-- ===== src/Calico.antt =====
-- Parts of internal/policy/calico/analyze.go: which rule decides a path under Calico's policies.
pub mod Value
pub mod Ports
pub mod Entity
pub mod Paths
pub mod Order
pub mod Decision
pub mod Profiles
pub mod Dns
pub mod Verdict
