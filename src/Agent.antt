-- ===== src/Agent.antt =====
-- cmd/agent/main.go and platform_*.go: the identity, the boot provisioning on pfSense, the handler of
-- commands, the steps of the start, and the service manager of each platform.
pub mod Identity
pub mod Boot
pub mod Marker
pub mod Handler
pub mod Live
pub mod Start
pub mod Platform
