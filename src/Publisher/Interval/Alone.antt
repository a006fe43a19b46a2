-- ===== src/Publisher/Interval/Alone.antt =====
-- A call of `SetTelemetryInterval` in internal/publisher/publisher.go that nothing interleaves with.
use pfsense_agent.Base.{refl, Option, none, some}
use pfsense_agent.Base.Int.{ℤ}
use pfsense_agent.Publisher.Interval.{clamp, set_telemetry_interval}
use pfsense_agent.Publisher.Interval.Deadlock.{
  State, idle, Reach, here, next, call, send, full, drain, refill,
}

abbrev between_calls : Option ℤ → ℤ → State
between_calls queued period = record { queued = queued; caller = idle; period = period }

-- Its own steps take it from one rest to the next, with the channel as the function leaves it.
set_telemetry_interval-Reach :
    (queued : Option ℤ) (period d : ℤ)
    → Reach (between_calls queued period) (between_calls (set_telemetry_interval d queued).1 period)
unfolding set_telemetry_interval
set_telemetry_interval-Reach none period d =
    next (next here (call _ d refl)) (send _ (clamp d) refl refl)
set_telemetry_interval-Reach (some old) period d =
    next
      (next (next (next here (call _ d refl)) (full _ (clamp d) old refl refl))
        (drain _ (clamp d) old refl refl))
      (refill _ (clamp d) refl refl)
