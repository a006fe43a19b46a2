-- ===== src/Publisher/New/Laws.antt =====
-- The pace of a publisher of internal/publisher/publisher.go, from `New` on.
use pfsense_agent.Base.{String, ◌≡◌, refl, true, Bool-cases, inl, inr}
use pfsense_agent.Base.Int.{ℤ, is_positive}
use pfsense_agent.Config.{AgentConfig}
use pfsense_agent.Nats.{Connection}
use pfsense_agent.System.{SystemModule}
use pfsense_agent.Publisher.Loops.{initial_interval}
use pfsense_agent.Publisher.Interval.Deadlock.{State, Reach, AtLeastMin, Reach-IsPaced}
use pfsense_agent.Publisher.New.{new, at_rest}

initial-AtLeastMin :
    (configured : ℤ)
    → (is_positive configured ≡ true → AtLeastMin configured)
    → AtLeastMin (initial_interval configured)
initial-AtLeastMin configured fine = elim (Bool-cases (is_positive configured)) [
  | inl given ↦ rw given (fine given)
  | inr absent ↦ rw absent refl
]

-- However the calls and the telemetry loop of a new publisher interleave, its ticker never has a period
-- below the minimum, unless the configuration has a positive one that is.
pub new-AtLeastMin :
    {W : Type 0} (nats : Connection W) (sys : SystemModule W) (agent_uuid : String)
    (cfg : AgentConfig) (s : State)
    → (is_positive cfg.telemetry_interval ≡ true → AtLeastMin cfg.telemetry_interval)
    → Reach (at_rest (new nats sys agent_uuid cfg)) s
    → AtLeastMin s.period
new-AtLeastMin nats sys agent_uuid cfg s fine r =
    let initial = initial-AtLeastMin cfg.telemetry_interval fine in
    (Reach-IsPaced r (record { queue = tt; calls = tt; ticker = initial })).ticker
