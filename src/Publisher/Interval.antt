-- ===== src/Publisher/Interval.antt =====
-- `SetTelemetryInterval` of internal/publisher/publisher.go: the clamp, and the channel that holds at
-- most one interval.
pub mod Deadlock
pub mod Alone
use pfsense_agent.Base.{ℕ, Bool, Option, none, some, if◌then◌else◌}
use pfsense_agent.Base.Int.{ℤ, pos, lt_nat}

-- `minTelemetryInterval`, a second in nanoseconds.
abbrev pub min_telemetry_interval : ℕ
min_telemetry_interval = 1000000000

unfoldable pub clamp : ℤ → ℤ
clamp d = if lt_nat d min_telemetry_interval then pos min_telemetry_interval else d

-- A call that nothing interleaves with, which always returns (Publisher/Interval/Alone), by the channel's
-- content before and after: a queued interval is received and dropped, and the newest is sent. A
-- call that the telemetry loop interleaves with may wait forever (Publisher/Interval/Deadlock).
unfoldable pub set_telemetry_interval : ℤ → Option ℤ → ℤ × Option ℤ
unfolding clamp
set_telemetry_interval d none = (clamp d, some (clamp d))
set_telemetry_interval d (some queued) = (clamp d, some (clamp d))
