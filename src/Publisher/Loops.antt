-- ===== src/Publisher/Loops.antt =====
-- The heartbeat and telemetry loops of internal/publisher/publisher.go, and the messages they send.
pub mod Laws
pub mod Keeps
use pfsense_agent.Base.{
  ℕ, ◌+◌, String, Option, none, some, List, [], ◌∷◌, Result, ok, err, Error, if◌then◌else◌,
}
use pfsense_agent.Base.Int.{ℤ, pos, is_positive}
use pfsense_agent.System.{SystemInfo, SystemMetrics, SystemModule}
use pfsense_agent.Protocol.{Stamp, Sent, heartbeat, telemetry, of_heartbeat, of_telemetry, new}
use pfsense_agent.Nats.{Connection, publish_event, publish_to_subject, telemetry_subject}

-- The interval that a loop starts with: 30 seconds if none is configured.
abbrev pub initial_interval : ℤ → ℤ
initial_interval configured = if is_positive configured then configured else pos 30000000000

-- What a loop receives: the end of its context, a tick, or a new interval.
pub data Event : Type 0 where
  done tick : Event
  new_interval : ℤ → Event

-- The period of the ticker, and how often the sender was called.
pub record LoopState : Type 0 where
  pub period : ℤ
  pub sent : ℕ

-- The loops over the events that they receive, in order. The call before the loop counts too.
telemetry_from : List Event → LoopState → LoopState
telemetry_from [] s = s
telemetry_from (done ∷ es) s = s
telemetry_from (tick ∷ es) s = telemetry_from es (record s { sent = s.sent + 1 })
telemetry_from (new_interval d ∷ es) s =
    telemetry_from es (record { period = d; sent = s.sent + 1 })

unfoldable pub telemetry_loop : ℤ → List Event → LoopState
unfolding telemetry_from
telemetry_loop configured es =
    telemetry_from es (record { period = initial_interval configured; sent = 1 })

heartbeat_from : List Event → LoopState → LoopState
heartbeat_from [] s = s
heartbeat_from (done ∷ es) s = s
heartbeat_from (tick ∷ es) s = heartbeat_from es (record s { sent = s.sent + 1 })
heartbeat_from (new_interval d ∷ es) s = heartbeat_from es s

unfoldable pub heartbeat_loop : ℤ → List Event → LoopState
unfolding heartbeat_from
heartbeat_loop configured es =
    heartbeat_from es (record { period = initial_interval configured; sent = 1 })

module _ {W : Type 0} (conn : Connection W) (sys : SystemModule W) (stamp : Stamp)
    (agent_uuid : String) where
  publish_heartbeat : Sent × Option Error → W → W
  publish_heartbeat (env, some e) w = w
  publish_heartbeat (env, none) w = (publish_event conn agent_uuid env w).1

  beat : Result SystemInfo × W → W
  unfolding publish_heartbeat
  beat (err e, w) = w
  beat (ok info, w) =
      publish_heartbeat
        (new stamp agent_uuid heartbeat
          (of_heartbeat (record { version = "0.2.0"; uptime_s = info.uptime; tasks_queued = 0 })))
        w

  unfoldable pub send_heartbeat : W → W
  unfolding beat
  send_heartbeat w = beat (sys.get_info w)

  -- The client-facing copy is sent only if the event was handed over; its own failure is logged.
  copy_to_client : Sent → Option Error × W → W
  copy_to_client env (some e, w) = w
  copy_to_client env (none, w) = (publish_to_subject conn (telemetry_subject agent_uuid) env w).1

  publish_snapshot : Sent × Option Error → W → W
  unfolding copy_to_client
  publish_snapshot (env, some e) w = w
  publish_snapshot (env, none) w = copy_to_client env (publish_event conn agent_uuid env w)

  snapshot : Result SystemMetrics × W → W
  unfolding publish_snapshot
  snapshot (err e, w) = w
  snapshot (ok metrics, w) =
      publish_snapshot (new stamp agent_uuid telemetry (of_telemetry metrics)) w

  unfoldable pub send_telemetry : W → W
  unfolding snapshot
  send_telemetry w = snapshot (sys.get_metrics w)
