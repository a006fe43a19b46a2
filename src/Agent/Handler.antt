-- ===== src/Agent/Handler.antt =====
-- The command handler that cmd/agent/main.go gives to `Subscribe` of internal/nats/client.go: from a
-- message on the command subject to the message that answers it.
use pfsense_agent.Base.{
  ◌∙◌, ap, String, ◌≡◌, refl, ◌≢◌, Option, none, some, Result, ok, str_eq, if◌then◌else◌,
  Bool-cases, inl, inr, zero, suc,
}
use pfsense_agent.Base.Int.{ℤ, pos, negsuc}
use pfsense_agent.Json.{Json, obj}
use pfsense_agent.Protocol.{Received, Sent, Stamp, CommandPayload, command, decode_payload}
use pfsense_agent.Protocol.Wire.Laws.{
  envelope_fields, command_fields, decode_envelope_lem, decode_payload_lem,
}
use pfsense_agent.Nats.{
  envelope_in, Connection, accept, publish_to_subject, publish_event, evt_subject,
}
use pfsense_agent.Dispatcher.{Dispatcher}
use pfsense_agent.Dispatcher.Run.Marshals.{ReadsNumbers}
use pfsense_agent.Dispatcher.Dispatch.{Dispatched, dispatch}
use pfsense_agent.Dispatcher.Dispatch.Answers.{IsAnswered, dispatch-Answers}

module _ {W : Type 0} (conn : Connection W) (d : Dispatcher W) (stamp : Stamp) where
  -- To the inbox of a waiting caller, or else to the event subject; a failure is logged only.
  send_reply : String → Dispatched × W → W
  send_reply reply_to (answered, w) =
      if str_eq reply_to ""
      then (publish_event conn d.agent_uuid answered.reply w).1
      else (publish_to_subject conn reply_to answered.reply w).1

  unfoldable pub handle : Received → W → W
  unfolding send_reply
  handle env w = send_reply env.reply_to (dispatch d stamp env w)

  handle_accepted : Option Received → W → W
  handle_accepted none w = w
  handle_accepted (some env) w = handle env w

  unfoldable pub on_message : Result Received → W → W
  unfolding handle_accepted
  on_message message w = handle_accepted (accept message) w

  -- Where the answer to a command goes.
  abbrev pub reply_subject : Received → String
  reply_subject env = if str_eq env.reply_to "" then evt_subject d.agent_uuid else env.reply_to

  accept_version : (env : Received) → env.v ≡ pos 1 → accept (ok env) ≡ some env
  unfolding accept
  accept_version env e = rw e refl

  send_reply_lem :
      (env : Received) (answered : Dispatched) (w : W)
      → send_reply env.reply_to (answered, w)
        ≡ (conn.publish (reply_subject env) answered.reply w).1
  unfolding send_reply publish_event publish_to_subject
  send_reply_lem env answered w = elim (Bool-cases (str_eq env.reply_to "")) [
    | inl absent ↦ rw absent refl
    | inr given ↦ rw given refl
  ]

  -- A message that was accepted or not, with the answer handed to the connection.
  abbrev pub replied : Option Received → W → W
  replied none w = w
  replied (some env) w =
      let (answered, w') = dispatch d stamp env w in
      (conn.publish (reply_subject env) answered.reply w').1

  handle_accepted-replied : (o : Option Received) (w : W) → handle_accepted o w ≡ replied o w
  unfolding handle_accepted handle
  handle_accepted-replied none w = refl
  handle_accepted-replied (some env) w =
      send_reply_lem env (dispatch d stamp env w).0 (dispatch d stamp env w).1

  pub on_message-replied :
      (message : Result Received) (w : W) → on_message message w ≡ replied (accept message) w
  unfolding on_message
  on_message-replied message w = handle_accepted-replied (accept message) w

  -- The callback on the text of a message.
  unfoldable pub on_data : (String → Result Json) → String → W → W
  on_data parse text w = on_message (envelope_in parse text) w

  -- A message of protocol version 1 is dispatched, and one message is then handed to the connection: a
  -- result of this agent that names the command, on the subject that the command asked for its answer
  -- or else on the agent's event subject. Each call of a module is taken to
  -- return, and each reading of the system module to be a number or to fail.
  pub on_message_replies :
      (env : Received) (w : W)
      → env.v ≡ pos 1
      → ReadsNumbers d.ports.system w
      → (reply : Sent) × IsAnswered d stamp env w reply
        × (on_message (ok env) w
            ≡ (conn.publish (reply_subject env) reply (dispatch d stamp env w).1).1)
  unfolding on_message handle
  on_message_replies env w current finite = (
    (dispatch d stamp env w).0.reply,
    dispatch-Answers d stamp env w finite,
    rw (accept_version env current)
        (send_reply_lem env (dispatch d stamp env w).0 (dispatch d stamp env w).1),
  )

  accept_other : (env : Received) (v : ℤ) → env.v ≡ v → v ≢ pos 1 → accept (ok env) ≡ none
  unfolding accept
  accept_other env (pos zero) e h = rw e refl
  accept_other env (pos (suc zero)) e h = absurd (h refl)
  accept_other env (pos (suc (suc n))) e h = rw e refl
  accept_other env (negsuc n) e h = rw e refl

  -- A message of another protocol version is dropped: nothing is run and nothing is sent.
  pub on_message_drops : (env : Received) (w : W) → env.v ≢ pos 1 → on_message (ok env) w ≡ w
  unfolding on_message
  on_message_drops env w other = rw (accept_other env env.v refl other) refl

  -- A text that parses to the object of a command of protocol version 1, each field under its tag and
  -- the optional ones left out where they are empty, is dispatched as that command, with the
  -- operation, the parameters and the timeout that were written; its answer goes to the
  -- connection. Each call of a module is taken to return.
  pub on_data-replied :
      (parse : String → Result Json) (text : String) (env : Received) (cmd : CommandPayload) (w : W)
      → env.type ≡ command
      → env.v ≡ pos 1
      → env.payload ≡ some (obj (command_fields cmd))
      → parse text ≡ ok (obj (envelope_fields env))
      → (on_data parse text w ≡ replied (some env) w) × (decode_payload env ≡ ok cmd)
  unfolding on_data envelope_in
  on_data-replied parse text env cmd w kind current given read =
      let decoded = decode_envelope_lem env (obj (command_fields cmd)) kind given in
      (
        rw (on_data, envelope_in, read, decoded)
            (on_message-replied (ok env) w ∙ ap (λ o. replied o w) (accept_version env current)),
        decode_payload_lem env cmd given,
      )
