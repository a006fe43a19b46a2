-- ===== src/Publisher/Loops/Laws.antt =====
-- How often the loops of internal/publisher/publisher.go send, and at which pace.
use pfsense_agent.Base.{ℕ, suc, ◌+◌, ◌≡◌, refl, List, [], ◌∷◌, arith, length}
use pfsense_agent.Base.Int.{ℤ}
use pfsense_agent.Publisher.Loops.{
  Event, done, tick, new_interval, LoopState, initial_interval, telemetry_from, telemetry_loop,
  heartbeat_from, heartbeat_loop,
}

-- What arrives before the context ends.
pub until_done : List Event → List Event
until_done [] = []
until_done (done ∷ es) = []
until_done (tick ∷ es) = tick ∷ until_done es
until_done (new_interval d ∷ es) = new_interval d ∷ until_done es

pub ticks : List Event → ℕ
ticks [] = 0
ticks (tick ∷ es) = suc (ticks es)
ticks (_ ∷ es) = ticks es

-- The last new interval, if there is one.
pub last_interval : ℤ → List Event → ℤ
last_interval d [] = d
last_interval d (new_interval c ∷ es) = last_interval c es
last_interval d (_ ∷ es) = last_interval d es

telemetry_from_lem :
    (es : List Event) (s : LoopState)
    → ((telemetry_from es s).sent ≡ s.sent + length (until_done es))
      × ((telemetry_from es s).period ≡ last_interval s.period (until_done es))
unfolding telemetry_from until_done last_interval
telemetry_from_lem [] s = (omega arith, refl)
telemetry_from_lem (done ∷ es) s = (omega arith, refl)
telemetry_from_lem (tick ∷ es) s =
    let rest = telemetry_from_lem es (record s { sent = s.sent + 1 }) in
    (omega (arith, rest.0), rest.1)
telemetry_from_lem (new_interval d ∷ es) s =
    let rest = telemetry_from_lem es (record { period = d; sent = s.sent + 1 }) in
    (omega (arith, rest.0), rest.1)

heartbeat_from_lem :
    (es : List Event) (s : LoopState)
    → ((heartbeat_from es s).sent ≡ s.sent + ticks (until_done es))
      × ((heartbeat_from es s).period ≡ s.period)
unfolding heartbeat_from until_done ticks
heartbeat_from_lem [] s = (omega arith, refl)
heartbeat_from_lem (done ∷ es) s = (omega arith, refl)
heartbeat_from_lem (tick ∷ es) s =
    let rest = heartbeat_from_lem es (record s { sent = s.sent + 1 }) in
    (omega (arith, rest.0), rest.1)
heartbeat_from_lem (new_interval d ∷ es) s = heartbeat_from_lem es s

-- Up to the end of the context, the telemetry loop calls its sender once at its start, once for
-- each tick and once for each new interval, and its ticker runs at the last new interval, or at the
-- configured one (30 seconds if that is not positive); the heartbeat loop calls its sender once at
-- its start and once for each tick, and keeps its period.
pub loops_lem :
    (configured : ℤ) (es : List Event)
    → ((telemetry_loop configured es).sent ≡ suc (length (until_done es)))
      × ((telemetry_loop configured es).period
          ≡ last_interval (initial_interval configured) (until_done es))
      × ((heartbeat_loop configured es).sent ≡ suc (ticks (until_done es)))
      × ((heartbeat_loop configured es).period ≡ initial_interval configured)
unfolding telemetry_loop heartbeat_loop
loops_lem configured es =
    let start : LoopState = record { period = initial_interval configured; sent = 1 } in
    let telemetry = telemetry_from_lem es start in
    let heartbeat = heartbeat_from_lem es start in
    (omega (arith, telemetry.0), telemetry.1, omega (arith, heartbeat.0), heartbeat.1)
