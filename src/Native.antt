-- ===== src/Native.antt =====
-- internal/policy/native/native.go: Kubernetes NetworkPolicy rules on a path between pods.
pub mod Names
pub mod Ports
pub mod Peers
pub mod Rules
pub mod Allow
pub mod Path
