-- ===== src/Publisher/New.antt =====
-- `New` of internal/publisher/publisher.go, and the publisher that it gives.
pub mod Laws
use pfsense_agent.Base.{String, Option, none, List}
use pfsense_agent.Base.Int.{ℤ}
use pfsense_agent.Config.{AgentConfig}
use pfsense_agent.Nats.{Connection}
use pfsense_agent.Protocol.{Stamp}
use pfsense_agent.System.{SystemModule}
use pfsense_agent.Publisher.Start
use pfsense_agent.Publisher.Loops.{initial_interval}
use pfsense_agent.Publisher.Interval.Deadlock
use pfsense_agent.Publisher.Interval.Deadlock.{idle}

-- With what is queued in its channel.
pub record Publisher (W : Type 0) : Type 0 where
  pub nats : Connection W
  pub sys : SystemModule W
  pub agent_uuid : String
  pub cfg : AgentConfig
  pub telemetry_interval_ch : Option ℤ

abbrev pub new : {W : Type 0} → Connection W → SystemModule W → String → AgentConfig → Publisher W
new nats sys agent_uuid cfg = record {
  nats = nats;
  sys = sys;
  agent_uuid = agent_uuid;
  cfg = cfg;
  telemetry_interval_ch = none;
}

module _ {W : Type 0} (p : Publisher W) where
  -- `Start` of a publisher.
  abbrev pub start : Stamp → List String → W → Start.State W
  start stamp order w =
      Start.start p.nats p.sys stamp p.agent_uuid order p.cfg.allowed_operations
        p.cfg.allowed_commands w

  -- The channel and the telemetry loop's ticker, with no call on its way.
  abbrev pub at_rest : Deadlock.State
  at_rest = record {
    queued = p.telemetry_interval_ch;
    caller = idle;
    period = initial_interval p.cfg.telemetry_interval;
  }
