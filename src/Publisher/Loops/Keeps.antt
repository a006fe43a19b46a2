-- ===== src/Publisher/Loops/Keeps.antt =====
-- What the messages of internal/publisher/publisher.go leave as it was.
use pfsense_agent.Base.{
  String, ◌≡◌, refl, ◌∙◌, false, Option, none, some, Result, ok, err, Error, List,
}
use pfsense_agent.Base.Results.Keeps.{Keeps}
use pfsense_agent.System.{SystemInfo, SystemMetrics, SystemModule}
use pfsense_agent.Protocol.{Stamp, Sent, heartbeat, telemetry, capabilities, new}
use pfsense_agent.Protocol.Laws.{is_result, is_result-new}
use pfsense_agent.Nats.{
  Connection, publish_event, publish_to_subject, evt_subject, telemetry_subject,
}
use pfsense_agent.Publisher.Capabilities.{send_capabilities, publish_built}
use pfsense_agent.Publisher.Loops.{
  send_heartbeat, send_telemetry, beat, snapshot, publish_heartbeat, publish_snapshot,
  copy_to_client,
}

module _ {W A : Type 0} (view : W → A) (conn : Connection W) (stamp : Stamp) (agent_uuid : String)
    (published : (subject : String) (env : Sent) (w : W)
      → is_result env ≡ false
      → view (conn.publish subject env w).1 ≡ view w) where
  -- An envelope that was built, if it was, and that is no result.
  abbrev IsOther : Sent × Option Error → Type 0
  IsOther (env, problem) = problem ≡ none → is_result env ≡ false

  publish_heartbeat_keeps :
      (sys : SystemModule W) (r : Sent × Option Error) (w : W)
      → IsOther r
      → view (publish_heartbeat conn sys stamp agent_uuid r w) ≡ view w
  unfolding publish_heartbeat publish_event publish_to_subject
  publish_heartbeat_keeps sys (env, some e) w other = refl
  publish_heartbeat_keeps sys (env, none) w other =
      published (evt_subject agent_uuid) env w (other refl)

  publish_built_keeps :
      (r : Sent × Option Error) (w : W)
      → IsOther r
      → view (publish_built conn stamp agent_uuid r w) ≡ view w
  unfolding publish_built publish_event publish_to_subject
  publish_built_keeps (env, some e) w other = refl
  publish_built_keeps (env, none) w other = published (evt_subject agent_uuid) env w (other refl)

  -- The capabilities are no result.
  pub send_capabilities-Keeps :
      (order allowed_ops allowed_commands : List String)
      → Keeps view (send_capabilities conn stamp agent_uuid order allowed_ops allowed_commands)
  unfolding send_capabilities
  send_capabilities-Keeps order allowed_ops allowed_commands w =
      publish_built_keeps (new stamp agent_uuid capabilities _) w
        (is_result-new stamp agent_uuid capabilities _)

  module _ (sys : SystemModule W) (info : Keeps view sys.get_info)
      (metrics : Keeps view sys.get_metrics) where
    beat_keeps : (r : Result SystemInfo × W) → view (beat conn sys stamp agent_uuid r) ≡ view r.1
    unfolding beat
    beat_keeps (err e, w) = refl
    beat_keeps (ok i, w) =
        publish_heartbeat_keeps sys (new stamp agent_uuid heartbeat _) w
          (is_result-new stamp agent_uuid heartbeat _)

    pub send_heartbeat_keeps : (w : W) → view (send_heartbeat conn sys stamp agent_uuid w) ≡ view w
    unfolding send_heartbeat
    send_heartbeat_keeps w = beat_keeps (sys.get_info w) ∙ info w

    copy_to_client_keeps :
        (env : Sent) (r : Option Error × W)
        → is_result env ≡ false
        → view (copy_to_client conn sys stamp agent_uuid env r) ≡ view r.1
    unfolding copy_to_client publish_to_subject
    copy_to_client_keeps env (some e, w) other = refl
    copy_to_client_keeps env (none, w) other = published (telemetry_subject agent_uuid) env w other

    publish_snapshot_keeps :
        (r : Sent × Option Error) (w : W)
        → IsOther r
        → view (publish_snapshot conn sys stamp agent_uuid r w) ≡ view w
    unfolding publish_snapshot publish_event publish_to_subject
    publish_snapshot_keeps (env, some e) w other = refl
    publish_snapshot_keeps (env, none) w other =
        copy_to_client_keeps env (publish_event conn agent_uuid env w) (other refl)
        ∙ published (evt_subject agent_uuid) env w (other refl)

    snapshot_keeps :
        (r : Result SystemMetrics × W) → view (snapshot conn sys stamp agent_uuid r) ≡ view r.1
    unfolding snapshot
    snapshot_keeps (err e, w) = refl
    snapshot_keeps (ok m, w) =
        publish_snapshot_keeps (new stamp agent_uuid telemetry _) w
          (is_result-new stamp agent_uuid telemetry _)

    pub send_telemetry_keeps : (w : W) → view (send_telemetry conn sys stamp agent_uuid w) ≡ view w
    unfolding send_telemetry
    send_telemetry_keeps w = snapshot_keeps (sys.get_metrics w) ∙ metrics w
