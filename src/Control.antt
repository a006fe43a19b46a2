-- ===== src/Control.antt =====
-- cmd/ctl/main.go and pkg/cmdutil/output.go: the control tool, its settings and what it prints.
pub mod Format
pub mod Table
pub mod Client
pub mod Fetch
pub mod Commands
pub mod Run
