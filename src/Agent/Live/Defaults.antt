-- ===== src/Agent/Live/Defaults.antt =====
-- The agent of cmd/agent/main.go with the default operations of internal/config/config.go.
use pfsense_agent.Base.{String, ◌≡◌}
use pfsense_agent.Nats.{Connection}
use pfsense_agent.Protocol.{Sent, Stamp}
use pfsense_agent.Config.{defaults}
use pfsense_agent.Dispatcher.{Dispatcher}
use pfsense_agent.Dispatcher.Run.Defaults.{KeepsDefaults, run_default-Keeps}
use pfsense_agent.Agent.Live.{Live, begun, Reach}
use pfsense_agent.Agent.Live.Keeps.{begun_keeps}

module _ {W A : Type 0} (view : W → A) (conn : Connection W) (d : Dispatcher W)
    (stamp : Stamp) where
  -- With the default operations, whatever messages a running agent gets, it manages no pfSense, grows no
  -- disk, and runs no process for a command but `systemctl`, `shutdown` and `apt-get`: what
  -- those three, the readings, the services, the connection, the capabilities and the telemetry
  -- interval leave as it was, stays as it was in every state that the agent can reach.
  pub defaults_confine :
      d.allowed_ops ≡ defaults.agent.allowed_operations
      → KeepsDefaults view d.ports
      → ((subject : String) (env : Sent) (w : W) → view (conn.publish subject env w).1 ≡ view w)
      → (w : W) (s : Live W) → Reach conn d stamp (begun conn d stamp w) s
      → view s.publisher.world ≡ view w
  unfolding defaults
  defaults_confine same kept published w s r =
      begun_keeps view conn d stamp kept.get_info kept.get_metrics published
        (λ op listed. run_default-Keeps view d kept op (rw same at listed)) w s r
