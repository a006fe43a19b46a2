-- ===== src/Agent/Live/Laws.antt =====
-- What a running agent has done to the world and answered, however its steps are interleaved.
use pfsense_agent.Base.{
  true, Option, none, some, List, [], ◌∷◌, ◌++◌, Result, ◌≡◌, refl, ap, ◌∙◌, All, All-append,
}
use pfsense_agent.Nats.{Connection, accept}
use pfsense_agent.Protocol.{Received, Stamp}
use pfsense_agent.Dispatcher.{Dispatcher}
use pfsense_agent.Dispatcher.Run.Marshals.{ReadsNumbers}
use pfsense_agent.Dispatcher.Dispatch.Answers.{IsAnswered, dispatch-Answers}
use pfsense_agent.Agent.Handler.{on_message}
use pfsense_agent.Publisher.Start.{Loop, heartbeats, telemetries, State, send}
use pfsense_agent.Publisher.Start
use pfsense_agent.Publisher.Capabilities.{send_capabilities}
use pfsense_agent.Agent.Live.{
  Event, announced, introduce, sent, delivered, Answered, Live, PublisherStep, events_of, answer_to,
  deliver, begun, Step, publish, receive, Reach, here, next,
}

-- The sends of the loops, and the commands that were accepted.
abbrev pub sends_in : List Event → List Loop
sends_in [] = []
sends_in (announced order ∷ es) = sends_in es
sends_in (sent l ∷ es) = l ∷ sends_in es
sends_in (delivered m ∷ es) = sends_in es

abbrev pub accepted : Option Received → List Received
accepted none = []
accepted (some env) = env ∷ []

abbrev pub commands_in : List Event → List Received
commands_in [] = []
commands_in (announced order ∷ es) = commands_in es
commands_in (sent l ∷ es) = commands_in es
commands_in (delivered m ∷ es) = accepted (accept m) ++ commands_in es

abbrev pub commands_of : {W : Type 0} → List (Answered W) → List Received
commands_of [] = []
commands_of (a ∷ rest) = a.command ∷ commands_of rest

module _ {W : Type 0} (conn : Connection W) (d : Dispatcher W) (stamp : Stamp) where
  -- The effects of the events in their order.
  abbrev pub effect : Event → W → W
  effect (announced order) w =
      (send_capabilities conn stamp d.agent_uuid order d.allowed_ops d.allowed_commands w).1
  effect (sent l) w = send conn d.ports.system stamp d.agent_uuid l w
  effect (delivered m) w = on_message conn d stamp m w

  abbrev pub replay : List Event → W → W
  replay [] w = w
  replay (e ∷ es) w = effect e (replay es w)

  -- The world is that of the beginning after the events, the publisher has sent what the events say, and
  -- the answers are to the accepted commands, one to each and in their order.
  pub record IsServed (w : W) (s : Live W) : Type 0 where
    pub world : s.publisher.world ≡ replay s.events w
    pub published : s.publisher.sent ≡ sends_in s.events
    pub commands : commands_of s.answers ≡ commands_in s.events
    pub answered : All (λ a. IsAnswered d stamp a.command a.world a.reply) s.answers

  abbrev live : State W → List Event → List (Answered W) → Live W
  live p es given = record { publisher = p; is_announced = true; events = es; answers = given }

  published-IsServed :
      (w : W) {p q : State W} (es : List Event) (given : List (Answered W))
      (step : PublisherStep conn d stamp p q)
      → IsServed w (live p es given)
      → IsServed w (live q (events_of conn d stamp step ++ es) given)
  published-IsServed w es given (Start.begin l p e) h = record {
    world = ap (effect (sent l)) h.world;
    published = ap (λ ls. l ∷ ls) h.published;
    commands = h.commands;
    answered = h.answered;
  }
  published-IsServed w es given (Start.tick l p e) h = record {
    world = ap (effect (sent l)) h.world;
    published = ap (λ ls. l ∷ ls) h.published;
    commands = h.commands;
    answered = h.answered;
  }
  published-IsServed w es given (Start.cancel p) h = record {
    world = h.world;
    published = h.published;
    commands = h.commands;
    answered = h.answered;
  }
  published-IsServed w es given (Start.stop heartbeats p d e) h = record {
    world = h.world;
    published = h.published;
    commands = h.commands;
    answered = h.answered;
  }
  published-IsServed w es given (Start.stop telemetries p d e) h = record {
    world = h.world;
    published = h.published;
    commands = h.commands;
    answered = h.answered;
  }

  answer_to-commands :
      (o : Option Received) (w : W) (rest : List (Answered W))
      → commands_of (answer_to conn d stamp o w ++ rest) ≡ accepted o ++ commands_of rest
  answer_to-commands none w rest = refl
  answer_to-commands (some env) w rest = refl

  module _ (finite : (w : W) → ReadsNumbers d.ports.system w) where
    answer_to-IsAnswered :
        (o : Option Received) (w : W)
        → All (λ a. IsAnswered d stamp a.command a.world a.reply) (answer_to conn d stamp o w)
    answer_to-IsAnswered none w = tt
    answer_to-IsAnswered (some env) w = (dispatch-Answers d stamp env w (finite w), tt)

    deliver-IsServed :
        (w : W) (m : Result Received) (s : Live W)
        → IsServed w s
        → IsServed w (deliver conn d stamp m s)
    deliver-IsServed w m s h = record {
      world = ap (on_message conn d stamp m) h.world;
      published = h.published;
      commands =
          answer_to-commands (accept m) s.publisher.world s.answers
          ∙ ap (λ rest. accepted (accept m) ++ rest) h.commands;
      answered =
          All-append (λ a. IsAnswered d stamp a.command a.world a.reply)
            (answer_to conn d stamp (accept m) s.publisher.world) s.answers
            (answer_to-IsAnswered (accept m) s.publisher.world) h.answered;
    }

    Step-IsServed : (w : W) {s t : Live W} → Step conn d stamp s t → IsServed w s → IsServed w t
    Step-IsServed w (introduce s order e) h = record {
      world = ap (effect (announced order)) h.world;
      published = h.published;
      commands = h.commands;
      answered = h.answered;
    }
    Step-IsServed w (publish s step e) h =
        let served = published-IsServed w s.events s.answers step (record {
          world = h.world;
          published = h.published;
          commands = h.commands;
          answered = h.answered;
        }) in
        record {
          world = served.world;
          published = served.published;
          commands = served.commands;
          answered = served.answered;
        }
    Step-IsServed w (receive s m) h = deliver-IsServed w m s h

    Reach-IsServed : (w : W) {s t : Live W} → Reach conn d stamp s t → IsServed w s → IsServed w t
    Reach-IsServed w here h = h
    Reach-IsServed w (next r step) h = Step-IsServed w step (Reach-IsServed w r h)

    -- However the messages, the capabilities and the loops are interleaved, the world is changed by them
    -- alone, in their order; every message of protocol version 1 is answered once, in the
    -- order of arrival, by a result of this agent that names its command, and no other message
    -- is; and the loops are not disturbed. Each reading of the system module is taken to be a
    -- number or to fail.
    pub begun-IsServed :
        (w : W) (s : Live W) → Reach conn d stamp (begun conn d stamp w) s → IsServed w s
    begun-IsServed w s r =
        Reach-IsServed w r
          (record { world = refl; published = refl; commands = refl; answered = tt })
