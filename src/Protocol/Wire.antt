-- ===== src/Protocol/Wire.antt =====
-- encoding/json on the envelopes of internal/protocol/envelope.go, by the tags of their fields.
pub mod Laws
use pfsense_agent.Base.{String, Option, none, some, Result, str_eq, if◌then◌else◌}
use pfsense_agent.Base.Int.{pos}
use pfsense_agent.Json.{
  Json, Setter, names_field, string_field, int_field, raw_field, set_field, unmarshal,
}
use pfsense_agent.Json.Nested.{int64_field}
use pfsense_agent.Protocol.{
  MessageType, command, heartbeat, telemetry, disk_health, alert, ipmi, result, capabilities,
  other_type, Received,
}

-- The constants.
abbrev pub type_text : MessageType → String
type_text command = "command"
type_text heartbeat = "heartbeat"
type_text telemetry = "telemetry"
type_text disk_health = "disk_health"
type_text alert = "alert"
type_text ipmi = "ipmi"
type_text result = "result"
type_text capabilities = "capabilities"
type_text (other_type s) = s

abbrev pub type_of : String → MessageType
type_of s =
    if str_eq s "command"
    then command
    else if str_eq s "heartbeat"
    then heartbeat
    else if str_eq s "telemetry"
    then telemetry
    else if str_eq s "disk_health"
    then disk_health
    else if str_eq s "alert"
    then alert
    else if str_eq s "ipmi"
    then ipmi
    else if str_eq s "result"
    then result
    else if str_eq s "capabilities"
    then capabilities
    else other_type s

-- Go's `var env protocol.Envelope`.
abbrev pub no_envelope : Received
no_envelope = record {
  v = pos 0;
  id = "";
  type = other_type "";
  agent_type = "";
  agent_uuid = "";
  timestamp = pos 0;
  reply_to = "";
  payload = none;
}

set_envelope : Setter Received
unfolding names_field string_field int_field int64_field
set_envelope key v env =
    if names_field key "v"
    then set_field (int_field "Envelope" "v" v env.v) (λ n. record env { v = n })
    else if names_field key "id"
    then set_field (string_field "Envelope" "id" v env.id) (λ s. record env { id = s })
    else if names_field key "type"
    then set_field (string_field "Envelope" "type" v (type_text env.type))
        (λ s. record env { type = type_of s })
    else if names_field key "agent_type"
    then set_field (string_field "Envelope" "agent_type" v env.agent_type)
        (λ s. record env { agent_type = s })
    else if names_field key "agent_uuid"
    then set_field (string_field "Envelope" "agent_uuid" v env.agent_uuid)
        (λ s. record env { agent_uuid = s })
    else if names_field key "timestamp"
    then set_field (int64_field "Envelope" "timestamp" v env.timestamp)
        (λ n. record env { timestamp = n })
    else if names_field key "reply_to"
    then set_field (string_field "Envelope" "reply_to" v env.reply_to)
        (λ s. record env { reply_to = s })
    else if names_field key "payload"
    then set_field (raw_field v env.payload) (λ p. record env { payload = p })
    else (env, none)

unfoldable pub decode_envelope : Json → Result Received
unfolding unmarshal set_envelope
decode_envelope v = unmarshal "protocol.Envelope" set_envelope no_envelope (some v)
