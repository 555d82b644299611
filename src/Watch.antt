-- ===== src/Watch.antt =====
-- The watchers of the Kubernetes manager (crates/kube-manager).
pub mod Types
pub mod Manager
pub mod Events
pub mod Retry
mod Examples
