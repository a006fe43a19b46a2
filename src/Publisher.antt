-- ===== src/Publisher.antt =====
-- internal/publisher/publisher.go. The catalogue is in Publisher/Catalog, the capabilities in
-- Publisher/Capabilities, the interval and its channel in Publisher/Interval, the loops with
-- the messages that they send in Publisher/Loops, their start in Publisher/Start, and `New` in
-- Publisher/New.
pub mod Catalog
pub mod Capabilities
pub mod Interval
pub mod Loops
pub mod Start
pub mod New
