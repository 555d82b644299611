-- ===== src/Sidecar.antt =====
-- crates/kube-sidecar-proxy: the proxy beside a workload, its routes and its connections.
pub mod Types
pub mod Routing
pub mod Headers
pub mod Registry
pub mod Rpc
pub mod Server
mod Examples
