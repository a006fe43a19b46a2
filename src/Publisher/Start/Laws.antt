-- ===== src/Publisher/Start/Laws.antt =====
-- What every interleaving of the loops of internal/publisher/publisher.go has sent, and how they end.
use pfsense_agent.Base.{String, Bool, true, false, not, ◌&&◌, List, [], ◌∷◌, ◌≡◌, refl, ap, arith}
use pfsense_agent.Nats.{Connection}
use pfsense_agent.Protocol.{Stamp}
use pfsense_agent.System.{SystemModule}
use pfsense_agent.Publisher.Capabilities.{send_capabilities}
use pfsense_agent.Publisher.Start.{
  Loop, heartbeats, telemetries, Phase, starting, ended, State, send, sending, start, Step, begin,
  tick, cancel, stop, Reach, here, next,
}

abbrev pub is_starting : Phase → Bool
is_starting starting = true
is_starting _ = false

abbrev pub is_ended : Phase → Bool
is_ended ended = true
is_ended _ = false

abbrev pub has_sent : Loop → List Loop → Bool
has_sent l [] = false
has_sent heartbeats (heartbeats ∷ ls) = true
has_sent telemetries (telemetries ∷ ls) = true
has_sent heartbeats (telemetries ∷ ls) = has_sent heartbeats ls
has_sent telemetries (heartbeats ∷ ls) = has_sent telemetries ls

module _ {W : Type 0} (conn : Connection W) (sys : SystemModule W) (stamp : Stamp)
    (agent_uuid : String) where
  -- The sends in their order, the last one first.
  abbrev pub replay : List Loop → W → W
  replay [] w = w
  replay (l ∷ ls) w = send conn sys stamp agent_uuid l (replay ls w)

  -- The world is that of the beginning after these sends; a loop has sent nothing exactly if it has not
  -- begun; and it has returned only if the context has ended.
  pub record IsSound (w : W) (s : State W) : Type 0 where
    pub sends : s.world ≡ replay s.sent w
    pub heartbeat_begun : has_sent heartbeats s.sent ≡ not (is_starting s.heartbeat)
    pub telemetry_begun : has_sent telemetries s.sent ≡ not (is_starting s.telemetry)
    pub ends :
        ((is_ended s.heartbeat && not s.is_done) ≡ false)
        × ((is_ended s.telemetry && not s.is_done) ≡ false)

  sending-IsSound :
      (l : Loop) (w : W) (s : State W)
      → IsSound w s
      → IsSound w (sending conn sys stamp agent_uuid l s)
  sending-IsSound heartbeats w s h = record {
    sends = ap (send conn sys stamp agent_uuid heartbeats) h.sends;
    heartbeat_begun = refl;
    telemetry_begun = h.telemetry_begun;
    ends = (refl, h.ends.1);
  }
  sending-IsSound telemetries w s h = record {
    sends = ap (send conn sys stamp agent_uuid telemetries) h.sends;
    heartbeat_begun = h.heartbeat_begun;
    telemetry_begun = refl;
    ends = (h.ends.0, refl);
  }

  Step-IsSound :
      (w : W) {s t : State W} → Step conn sys stamp agent_uuid s t → IsSound w s → IsSound w t
  Step-IsSound w (begin l s e) h = sending-IsSound l w s h
  Step-IsSound w (tick l s e) h = sending-IsSound l w s h
  Step-IsSound w (cancel s) h = record {
    sends = h.sends;
    heartbeat_begun = h.heartbeat_begun;
    telemetry_begun = h.telemetry_begun;
    ends = (ground arith, ground arith);
  }
  Step-IsSound w (stop heartbeats s cancelled e) h = record {
    sends = h.sends;
    heartbeat_begun = rw e at h.heartbeat_begun;
    telemetry_begun = h.telemetry_begun;
    ends = (ap not cancelled, h.ends.1);
  }
  Step-IsSound w (stop telemetries s cancelled e) h = record {
    sends = h.sends;
    heartbeat_begun = h.heartbeat_begun;
    telemetry_begun = rw e at h.telemetry_begun;
    ends = (h.ends.0, ap not cancelled);
  }

  Reach-IsSound :
      (w : W) {s t : State W} → Reach conn sys stamp agent_uuid s t → IsSound w s → IsSound w t
  Reach-IsSound w here h = h
  Reach-IsSound w (next r step) h = Step-IsSound w step (Reach-IsSound w r h)

  -- However the loops are interleaved, the capabilities are sent first, and the world is then changed by
  -- the sends alone, in their order; a loop that has begun has sent, and one that returns does so
  -- only after the end of the context.
  pub start-IsSound :
      (order allowed_ops allowed_commands : List String) (w : W) (s : State W)
      → Reach conn sys stamp agent_uuid
          (start conn sys stamp agent_uuid order allowed_ops allowed_commands w)
          s
      → IsSound (send_capabilities conn stamp agent_uuid order allowed_ops allowed_commands w).1 s
  start-IsSound order allowed_ops allowed_commands w s r =
      Reach-IsSound (send_capabilities conn stamp agent_uuid order allowed_ops allowed_commands w).1
        r
        (record {
          sends = refl;
          heartbeat_begun = refl;
          telemetry_begun = refl;
          ends = (refl, refl);
        })
