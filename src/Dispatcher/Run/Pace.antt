-- ===== src/Dispatcher/Run/Pace.antt =====
-- `telemetry.set_interval` of internal/dispatcher/dispatcher.go over the publisher's
-- `SetTelemetryInterval`: from the seconds that a client asks for to those that it is told.
use pfsense_agent.Base.{
  ℕ, ◌*◌, ◌-◌, ◌∙◌, ◌^◌, ◌≤◌, ◌<◌, ◌≡◌, refl, true, Option, none, some, arith, ok,
}
use pfsense_agent.Base.Int.{ℤ, pos, negsuc, bits64, of_bits64, mul64, div64, is_positive}
use pfsense_agent.Protocol.{intervals}
use pfsense_agent.Publisher.Interval.{clamp, set_telemetry_interval}
use pfsense_agent.Dispatcher.{Dispatcher}
use pfsense_agent.Json.{Json}
use pfsense_agent.Dispatcher.Operation.{switch}
use pfsense_agent.Dispatcher.Params.{Params}
use pfsense_agent.Dispatcher.Run.{second, set_interval, run, run_case}

mul64_small : (s : ℕ) → s ≤ 9223372036 → mul64 (pos s) second ≡ pos (s * second)
unfolding mul64 bits64 of_bits64
mul64_small s h = ground arith

mul64_large :
    (s : ℕ)
    → 9223372036 < s
    → s ≤ 18446744073
    → mul64 (pos s) second ≡ negsuc (2 ^ 64 - 1 - s * second)
unfolding mul64 bits64 of_bits64
mul64_large s h h' = ground arith

clamp_seconds : (s : ℕ) → 1 ≤ s → div64 (clamp (pos (s * second))) second ≡ pos s
unfolding clamp div64
clamp_seconds s h = ground arith

answer : (n : ℤ) (queued : Option ℤ) → (set_telemetry_interval n queued).0 ≡ clamp n
unfolding set_telemetry_interval
answer n none = refl
answer n (some old) = refl

positive : (s : ℕ) → 1 ≤ s → is_positive (pos s) ≡ true
positive s h = ground arith

module _ {W : Type 0} (d : Dispatcher W) (w : W) (queued : Option ℤ)
    (publishes : (n : ℤ)
      → (d.ports.set_telemetry_interval n w).0 ≡ (set_telemetry_interval n queued).0)
    (p : Params) (raw : Option Json) (s : ℕ) (asked : p.interval_s ≡ pos s) where
  told :
      1 ≤ s
      → (run d "telemetry.set_interval" p raw w).0
        ≡ ok (intervals (pos s) (div64 (clamp (mul64 (pos s) second)) second))
  unfolding run run_case switch set_interval
  told low =
      rw
        (
          asked,
          positive s low,
          publishes (mul64 (pos s) second) ∙ answer (mul64 (pos s) second) queued,
        )
        refl

  -- With the publisher behind the dispatcher, an interval of 1 to 9223372036 seconds is applied and
  -- reported as it was asked for.
  pub set_interval_exact :
      1 ≤ s
      → s ≤ 9223372036
      → (run d "telemetry.set_interval" p raw w).0 ≡ ok (intervals (pos s) (pos s))
  set_interval_exact low high = told low ∙ rw (mul64_small s high, clamp_seconds s low) refl

  -- From 9223372037 to 18446744073 seconds the number of nanoseconds wraps to a negative one: a second
  -- is applied, and is reported beside the seconds that were asked for.
  pub set_interval_overflows :
      9223372036 < s
      → s ≤ 18446744073
      → (run d "telemetry.set_interval" p raw w).0 ≡ ok (intervals (pos s) (pos 1))
  unfolding clamp div64
  set_interval_overflows low high = told (omega arith) ∙ rw (mul64_large s low high) refl
