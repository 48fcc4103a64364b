-- ===== src/Service.antt =====
-- Parts of internal/check/service_target.go, service_policy.go and service_diagnosis.go.
pub mod Selection
pub mod Ports
pub mod Endpoints
pub mod Reach
