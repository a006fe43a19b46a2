-- ===== src/Agent/Live/Keeps.antt =====
-- What the agent of cmd/agent/main.go leaves as it was, however long it runs.
use pfsense_agent.Base.{String, ◌≡◌, refl, ap, ◌∙◌, true, false, Option, none, some, List, contains}
use pfsense_agent.Base.Results.Keeps.{Keeps}
use pfsense_agent.Json.{Json}
use pfsense_agent.Nats.{Connection, accept}
use pfsense_agent.Protocol.{Received, Sent, Stamp}
use pfsense_agent.Protocol.Laws.{is_result}
use pfsense_agent.Dispatcher.{Dispatcher}
use pfsense_agent.Dispatcher.Params.{Params}
use pfsense_agent.Dispatcher.Run.{run}
use pfsense_agent.Dispatcher.Dispatch.{dispatch}
use pfsense_agent.Dispatcher.Dispatch.Keeps.{dispatch_keeps}
use pfsense_agent.Publisher.Start.{Loop, heartbeats, telemetries, State, send}
use pfsense_agent.Publisher.Start
use pfsense_agent.Publisher.Loops.Keeps.{
  send_capabilities-Keeps, send_heartbeat_keeps, send_telemetry_keeps,
}
use pfsense_agent.Agent.Handler.{replied, reply_subject, on_message-replied}
use pfsense_agent.Agent.Live.{
  Live, PublisherStep, begun, introduce, announce, publish, receive, Reach, here, next,
}

module _ {W A : Type 0} (view : W → A) (conn : Connection W) (d : Dispatcher W) (stamp : Stamp)
    (info : Keeps view d.ports.system.get_info)
    (metrics : Keeps view d.ports.system.get_metrics) where
  module _
      (published : (subject : String) (env : Sent) (w : W)
        → is_result env ≡ false
        → view (conn.publish subject env w).1 ≡ view w) where
    send_keeps :
        (l : Loop) (w : W) → view (send conn d.ports.system stamp d.agent_uuid l w) ≡ view w
    send_keeps heartbeats w =
        send_heartbeat_keeps view conn stamp d.agent_uuid published d.ports.system info metrics w
    send_keeps telemetries w =
        send_telemetry_keeps view conn stamp d.agent_uuid published d.ports.system info metrics w

    -- The loops leave as it was what their messages do not change.
    pub PublisherStep-keeps :
        {s t : State W} → PublisherStep conn d stamp s t → view t.world ≡ view s.world
    PublisherStep-keeps (Start.begin l s e) = send_keeps l s.world
    PublisherStep-keeps (Start.tick l s e) = send_keeps l s.world
    PublisherStep-keeps (Start.cancel s) = refl
    PublisherStep-keeps (Start.stop heartbeats s h e) = refl
    PublisherStep-keeps (Start.stop telemetries s h e) = refl

    pub announce_keeps :
        (order : List String) (s : Live W)
        → view (announce conn d stamp order s).publisher.world ≡ view s.publisher.world
    announce_keeps order s =
        send_capabilities-Keeps view conn stamp d.agent_uuid published order d.allowed_ops
          d.allowed_commands s.publisher.world

  module _
      (published : (subject : String) (env : Sent) (w : W)
        → view (conn.publish subject env w).1 ≡ view w)
      (listed : (op : String)
        → contains d.allowed_ops op ≡ true
        → (p : Params) (raw : Option Json) → Keeps view (run d op p raw)) where
    replied_keeps : (o : Option Received) (w : W) → view (replied conn d stamp o w) ≡ view w
    replied_keeps none w = refl
    replied_keeps (some env) w =
        published (reply_subject conn d stamp env) (dispatch d stamp env w).0.reply
          (dispatch d stamp env w).1
        ∙ dispatch_keeps view d listed stamp env w

    Reach_keeps :
        {s t : Live W} → Reach conn d stamp s t → view t.publisher.world ≡ view s.publisher.world
    Reach_keeps here = refl
    Reach_keeps (next r (introduce s order e)) =
        announce_keeps (λ subject env w _. published subject env w) order s ∙ Reach_keeps r
    Reach_keeps (next r (publish s step e)) =
        PublisherStep-keeps (λ subject env w _. published subject env w) step ∙ Reach_keeps r
    Reach_keeps (next r (receive s message)) =
        ap view (on_message-replied conn d stamp message s.publisher.world)
        ∙ (replied_keeps (accept message) s.publisher.world ∙ Reach_keeps r)

    -- A running agent is confined by its allow list: what its listed operations leave as it was, and
    -- its two readings and its connection do not touch, stays as it was in every state that the agent
    -- can reach, whatever messages it gets, before its capabilities are sent or after that, and
    -- however they fall between its loops.
    pub begun_keeps :
        (w : W) (s : Live W)
        → Reach conn d stamp (begun conn d stamp w) s
        → view s.publisher.world ≡ view w
    begun_keeps w s r = Reach_keeps r
