-- ===== src/Proxy.antt =====
-- internal/module/docker/proxy.go: the egress proxy, the only way out for a container whose network
-- policy is `none` or `allowlist`.
pub mod Hosts
pub mod Registry
pub mod Serve
