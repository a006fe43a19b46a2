-- ===== src/Agent/Live/Delivery.antt =====
-- What the agent of cmd/agent/main.go hands to its connection as results.
use pfsense_agent.Base.{
  refl, String, ◌≡◌, ap, ◌∙◌, true, false, Option, none, some, List, [], ◌∷◌, ◌++◌, All,
}
use pfsense_agent.Nats.{Connection, accept}
use pfsense_agent.Protocol.{Received, Sent, Stamp}
use pfsense_agent.Protocol.Laws.{is_result, is_result_type}
use pfsense_agent.Dispatcher.{Dispatcher}
use pfsense_agent.Dispatcher.Run.Marshals.{ReadsNumbers}
use pfsense_agent.Dispatcher.Run.Keeps.{KeepsPorts, run-Keeps}
use pfsense_agent.Dispatcher.Dispatch.{dispatch}
use pfsense_agent.Dispatcher.Dispatch.Answers.{IsAnswered, dispatch-Answers}
use pfsense_agent.Dispatcher.Dispatch.Keeps.{dispatch_keeps}
use pfsense_agent.Agent.Handler.{replied, reply_subject, on_message-replied}
use pfsense_agent.Agent.Live.{
  introduce, Answered, Live, answer_to, begun, publish, receive, Reach, here, next,
}
use pfsense_agent.Agent.Live.Keeps.{PublisherStep-keeps, announce_keeps}
use pfsense_agent.Agent.Live.Laws.{commands_of, commands_in, begun-IsServed}

-- The results that a connection was handed, the last one first, each with its subject.
pub record Outbox {W : Type 0} (conn : Connection W) : Type 0 where
  pub results : W → List (String × Sent)
  pub publish_result :
      (subject : String) (env : Sent) (w : W)
      → is_result env ≡ true
      → results (conn.publish subject env w).1 ≡ (subject, env) ∷ results w
  pub publish_other :
      (subject : String) (env : Sent) (w : W)
      → is_result env ≡ false
      → results (conn.publish subject env w).1 ≡ results w

module _ {W : Type 0} (conn : Connection W) (d : Dispatcher W) (stamp : Stamp)
    (out : Outbox conn) where
  open out use {results}

  -- The answers as they were handed to the connection.
  abbrev pub replies_of : List (Answered W) → List (String × Sent)
  replies_of [] = []
  replies_of (a ∷ rest) = (reply_subject conn d stamp a.command, a.reply) ∷ replies_of rest

  IsAnswered-is_result :
      (env : Received) (w : W) (reply : Sent)
      → IsAnswered d stamp env w reply
      → is_result reply ≡ true
  IsAnswered-is_result env w reply (status, said, output, answers) = ap is_result_type answers.kind

  module _ (kept : KeepsPorts results d.ports)
      (finite : (w : W) → ReadsNumbers d.ports.system w) where
    replied-results :
        (o : Option Received) (w : W) (given : List (Answered W)) (before : List (String × Sent))
        → results w ≡ replies_of given ++ before
        → results (replied conn d stamp o w)
          ≡ replies_of (answer_to conn d stamp o w ++ given) ++ before
    replied-results none w given before h = h
    replied-results (some env) w given before h =
        let reply = (dispatch d stamp env w).0.reply in
        let subject = reply_subject conn d stamp env in
        out.publish_result subject reply (dispatch d stamp env w).1
          (IsAnswered-is_result env w reply (dispatch-Answers d stamp env w (finite w)))
        ∙ ap (λ rest. (subject, reply) ∷ rest)
            (dispatch_keeps results d (λ op _ p raw. run-Keeps results d kept op p raw) stamp env w
              ∙ h)

    Reach-results :
        (before : List (String × Sent)) {s t : Live W}
        → Reach conn d stamp s t
        → results s.publisher.world ≡ replies_of s.answers ++ before
        → results t.publisher.world ≡ replies_of t.answers ++ before
    Reach-results before here h = h
    Reach-results before (next r (introduce s order e)) h =
        announce_keeps results conn d stamp kept.defaults.get_info kept.defaults.get_metrics
          out.publish_other order s
        ∙ Reach-results before r h
    Reach-results before (next r (publish s step e)) h =
        PublisherStep-keeps results conn d stamp kept.defaults.get_info kept.defaults.get_metrics
          out.publish_other step
        ∙ Reach-results before r h
    Reach-results before (next r (receive s message)) h =
        ap results (on_message-replied conn d stamp message s.publisher.world)
        ∙ replied-results (accept message) s.publisher.world s.answers before
            (Reach-results before r h)

    -- In every state that a running agent can reach, the results that it has handed to its connection
    -- are those to the messages of protocol version 1, one for each and in the order of arrival: a
    -- result of this agent that names the command, on the subject that the command asked for or else
    -- on the agent's event subject. This is so if no module hands over a result itself, each call of
    -- a module returns, and each reading of the system module is a number or fails.
    pub begun-results :
        (w : W) (s : Live W)
        → Reach conn d stamp (begun conn d stamp w) s
        → (results s.publisher.world ≡ replies_of s.answers ++ results w)
          × (commands_of s.answers ≡ commands_in s.events)
          × All (λ a. IsAnswered d stamp a.command a.world a.reply) s.answers
    begun-results w s r =
        let served = begun-IsServed conn d stamp finite w s r in
        (Reach-results (results w) r refl, served.commands, served.answered)
