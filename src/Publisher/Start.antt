-- ===== src/Publisher/Start.antt =====
-- `Start` of internal/publisher/publisher.go: the capabilities, and then the two loops as goroutines,
-- whose sends are interleaved in any order. A send is one step.
pub mod Laws
pub mod Ends
use pfsense_agent.Base.{String, Bool, true, false, List, [], ◌∷◌, ◌≡◌}
use pfsense_agent.Nats.{Connection}
use pfsense_agent.Protocol.{Stamp}
use pfsense_agent.System.{SystemModule}
use pfsense_agent.Publisher.Capabilities.{send_capabilities}
use pfsense_agent.Publisher.Loops.{send_heartbeat, send_telemetry}

pub data Loop : Type 0 where
  heartbeats telemetries : Loop

-- Before the first send, in the `select`, and after the return.
pub data Phase : Type 0 where
  starting waiting ended : Phase

-- The context, where both loops stand, what they sent (the last one first), and the world.
pub record State (W : Type 0) : Type 0 where
  pub is_done : Bool
  pub heartbeat : Phase
  pub telemetry : Phase
  pub sent : List Loop
  pub world : W

abbrev pub phase : {W : Type 0} → Loop → State W → Phase
phase heartbeats s = s.heartbeat
phase telemetries s = s.telemetry

abbrev pub set_phase : {W : Type 0} → Loop → Phase → State W → State W
set_phase heartbeats p s = record s { heartbeat = p }
set_phase telemetries p s = record s { telemetry = p }

module _ {W : Type 0} (conn : Connection W) (sys : SystemModule W) (stamp : Stamp)
    (agent_uuid : String) where
  abbrev pub send : Loop → W → W
  send heartbeats = send_heartbeat conn sys stamp agent_uuid
  send telemetries = send_telemetry conn sys stamp agent_uuid

  abbrev pub sending : Loop → State W → State W
  sending l s = record (set_phase l waiting s) { sent = l ∷ s.sent; world = send l s.world }

  abbrev pub start : List String → List String → List String → W → State W
  start order allowed_ops allowed_commands w = record {
    is_done = false;
    heartbeat = starting;
    telemetry = starting;
    sent = [];
    world = (send_capabilities conn stamp agent_uuid order allowed_ops allowed_commands w).1;
  }

  -- The first send of a loop asks nothing; a tick, or a new interval, can still be received after the
  -- end of the context.
  pub data Step : State W → State W → Type 0 where
    begin : (l : Loop) (s : State W) → phase l s ≡ starting → Step s (sending l s)
    tick : (l : Loop) (s : State W) → phase l s ≡ waiting → Step s (sending l s)
    cancel : (s : State W) → Step s (record s { is_done = true })
    stop :
        (l : Loop) (s : State W)
        → s.is_done ≡ true
        → phase l s ≡ waiting
        → Step s (set_phase l ended s)

  pub data Reach (s : State W) : State W → Type 0 where
    here : Reach s s
    next : {t u : State W} → Reach s t → Step t u → Reach s u
