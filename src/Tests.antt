-- ===== src/Tests.antt =====
-- The theorems at concrete inputs: a small agent, its machine, and the messages that it takes.
mod Fixtures
mod Commands
mod Policy
mod Delivery
mod Boot
mod Marker
mod Start
mod Firewall
mod Announcements
mod Publishing
mod Control
mod Metrics
mod Drive
mod Machine
