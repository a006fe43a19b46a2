-- ===== src/Agent/Live.antt =====
-- The agent of cmd/agent/main.go once its subscription is accepted: the messages that its subscription delivers, one
-- after the other, between the steps of the publisher's loops. The handling of a message is one step.
pub mod Laws
pub mod Keeps
pub mod Delivery
pub mod Defaults
use pfsense_agent.Base.{
  Bool, false, String, Option, none, some, List, [], ◌∷◌, ◌++◌, Result, ◌≡◌, true,
}
use pfsense_agent.Nats.{Connection, accept}
use pfsense_agent.Protocol.{Received, Sent, Stamp}
use pfsense_agent.Dispatcher.{Dispatcher}
use pfsense_agent.Dispatcher.Dispatch.{dispatch}
use pfsense_agent.Agent.Handler.{on_message}
use pfsense_agent.Publisher.Start.{Loop, State, starting}
use pfsense_agent.Publisher.Capabilities.{send_capabilities}
use pfsense_agent.Publisher.Start

-- What has happened: the capabilities, sent over the catalogue's keys in some order, a send of a loop, or a message of the subscription.
pub data Event : Type 0 where
  announced : (order : List String) → Event
  sent : Loop → Event
  delivered : Result Received → Event

-- A command that was dispatched in a world, with its answer.
pub record Answered (W : Type 0) : Type 0 where
  pub command : Received
  pub world : W
  pub reply : Sent

-- The publisher with the world that all share, the events and the answers; the last one comes first.
pub record Live (W : Type 0) : Type 0 where
  pub publisher : State W
  pub is_announced : Bool
  pub events : List Event
  pub answers : List (Answered W)

module _ {W : Type 0} (conn : Connection W) (d : Dispatcher W) (stamp : Stamp) where
  -- The publisher reads the same system module as the dispatcher, and publishes for the same agent.
  abbrev pub PublisherStep : State W → State W → Type 0
  PublisherStep = Start.Step conn d.ports.system stamp d.agent_uuid

  abbrev pub events_of : {s t : State W} → PublisherStep s t → List Event
  events_of (Start.begin l s e) = sent l ∷ []
  events_of (Start.tick l s e) = sent l ∷ []
  events_of (Start.cancel s) = []
  events_of (Start.stop l s d e) = []

  abbrev pub answer_to : Option Received → W → List (Answered W)
  answer_to none w = []
  answer_to (some env) w =
      record { command = env; world = w; reply = (dispatch d stamp env w).0.reply } ∷ []

  -- Every call that the handling makes is taken to return. A call of the publisher's
  -- `SetTelemetryInterval` that its loop interleaves with may not (Publisher/Interval/Deadlock).
  abbrev pub deliver : Result Received → Live W → Live W
  deliver message s = record s {
    publisher = record s.publisher { world = on_message conn d stamp message s.publisher.world };
    events = delivered message ∷ s.events;
    answers = answer_to (accept message) s.publisher.world ++ s.answers;
  }

  -- `Start` of the publisher up to its goroutines. It announces by the same configuration as the
  -- dispatcher's.
  abbrev pub announce : List String → Live W → Live W
  announce order s = record s {
    publisher = record s.publisher {
      world =
          (send_capabilities conn stamp d.agent_uuid order d.allowed_ops d.allowed_commands
            s.publisher.world).1;
    };
    is_announced = true;
    events = announced order ∷ s.events;
  }

  -- With the subscription accepted, and the publisher not started.
  abbrev pub begun : W → Live W
  begun w = record {
    publisher = record {
      is_done = false;
      heartbeat = starting;
      telemetry = starting;
      sent = [];
      world = w;
    };
    is_announced = false;
    events = [];
    answers = [];
  }

  -- A message can arrive before the capabilities are sent; the loops begin after that.
  pub data Step : Live W → Live W → Type 0 where
    introduce :
        (s : Live W) (order : List String) → s.is_announced ≡ false → Step s (announce order s)
    publish :
        (s : Live W) {t : State W} (step : PublisherStep s.publisher t)
        → s.is_announced ≡ true
        → Step s (record s { publisher = t; events = events_of step ++ s.events })
    receive : (s : Live W) (message : Result Received) → Step s (deliver message s)

  pub data Reach (s : Live W) : Live W → Type 0 where
    here : Reach s s
    next : {t u : Live W} → Reach s t → Step t u → Reach s u
