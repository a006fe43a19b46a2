-- ===== src/Nats.antt =====
-- internal/nats/client.go: connecting, the subjects, the filter in front of the command handler, and publishing.
-- The connection is github.com/nats-io/nats.go, which is a parameter.
use pfsense_agent.Base.{
  suc, zero, String, ◌<>◌, Option, none, some, Result, ok, err, Error, wrap, ℕ, Io, Unit0, wrapped,
}
use pfsense_agent.Base.Int.{ℤ, pos}
use pfsense_agent.Config.{NatsConfig, active_url}
use pfsense_agent.Protocol.{Received, Sent}
use pfsense_agent.Protocol.Wire.{decode_envelope}
use pfsense_agent.Json.{Json}

unfoldable pub cmd_subject : String → String
cmd_subject agent_uuid = "agent.vm." <> (agent_uuid <> ".cmd")

unfoldable pub evt_subject : String → String
evt_subject agent_uuid = "agent.vm." <> (agent_uuid <> ".evt")

unfoldable pub telemetry_subject : String → String
telemetry_subject agent_uuid = "vm." <> (agent_uuid <> ".telemetry")

-- What `Connect` passes to nats.go; the handlers that it adds only log. A timeout is given by the
-- caller, in nanoseconds.
pub record ConnectOptions : Type 0 where
  pub name : String
  pub user : String
  pub password : String
  pub max_reconnects : ℤ
  pub reconnect_wait : ℤ
  pub timeout : Option ℕ

unfoldable pub connect_options : NatsConfig → String → String → Option ℕ → ConnectOptions
connect_options cfg agent_uuid agent_api_key timeout = record {
  name = "plusclouds-vm-agent:" <> agent_uuid;
  user = agent_uuid;
  password = agent_api_key;
  max_reconnects = cfg.max_reconnects;
  reconnect_wait = cfg.reconnect_wait;
  timeout = timeout;
}

-- `Connect`, over `nats.Connect`.
unfoldable pub connect :
    {W : Type 0}
    → (String → ConnectOptions → Io W Unit0)
    → NatsConfig
    → String
    → String
    → Option ℕ
    → Io W Unit0
unfolding connect_options active_url
connect nats_connect cfg agent_uuid agent_api_key timeout =
    wrapped
      ("connecting to NATS (" <> (cfg.connection_type <> (") at " <> (active_url cfg <> ": "))))
      (nats_connect (active_url cfg) (connect_options cfg agent_uuid agent_api_key timeout))

of_version : ℤ → Received → Option Received
of_version (pos (suc zero)) env = some env
of_version _ env = none

-- The callback of `Subscribe`, up to the call of the handler: a message that does not decode, or is
-- of another protocol version, is dropped.
unfoldable pub accept : Result Received → Option Received
unfolding of_version
accept (ok env) = of_version env.v env
accept (err e) = none

-- `json.Unmarshal(msg.Data, &env)`, over the parsing of the text.
unfoldable pub envelope_in : (String → Result Json) → String → Result Received
envelope_in parse text = elim (parse text) [ ok v ↦ decode_envelope v | err e ↦ err e ]

-- `conn.Publish`, with an error if the message could not be handed over.
pub record Connection (W : Type 0) : Type 0 where
  pub publish : String → Sent → W → Option Error × W

module _ {W : Type 0} (conn : Connection W) where
  abbrev publish_error : String → Option Error → Option Error
  publish_error subject none = none
  publish_error subject (some e) = some (wrap ("publishing to " <> (subject <> ": ")) e "")

  unfoldable pub publish_to_subject : String → Sent → W → Option Error × W
  publish_to_subject subject env w =
      let (e, w') = conn.publish subject env w in (publish_error subject e, w')

  unfoldable pub publish_event : String → Sent → W → Option Error × W
  unfolding publish_to_subject
  publish_event agent_uuid env w = publish_to_subject (evt_subject agent_uuid) env w
