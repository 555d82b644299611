-- ===== src/Dns.antt =====
-- crates/cli/src/devbox/dns: names and addresses for the services of a devbox environment.
pub mod IpAllocator
