-- ===== src/Tests.antt =====
-- The theorems at concrete objects of a small cluster.
mod Data
mod Reports
mod Policies
mod Services
mod Runs
mod Requests
mod Mesh
mod Tiers
mod Scopes
mod Meshed
mod Paths
