-- ===== src/Istio.antt =====
-- The Istio inspection of internal/check/istio*.go: which route a request takes, and why an
-- authorization policy denies it.
pub mod Request
pub mod Matching
pub mod Patterns
pub mod Rules
pub mod Policies
pub mod Authz
pub mod Config
pub mod Client
pub mod Sidecar
pub mod Traffic
pub mod Mtls
pub mod Signal
