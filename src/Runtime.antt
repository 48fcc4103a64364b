-- ===== src/Runtime.antt =====
-- internal/runtime: what is run in a source pod, and how its output is read.
pub mod Shell
pub mod Urls
pub mod Resolv
pub mod Probe
pub mod Exec
