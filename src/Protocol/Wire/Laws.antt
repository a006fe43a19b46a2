-- ===== src/Protocol/Wire/Laws.antt =====
-- Commands as the platform writes them, each field under its tag.
use pfsense_agent.Base.{
  String, ◌≡◌, refl, Option, none, some, ok, str_eq, if◌then◌else◌, eq_iff, Bool-cases, inl, inr,
  zero, suc,
}
use pfsense_agent.Base.Int.{ℤ, pos, negsuc}
use pfsense_agent.Json.{
  Json, null, integer, str, obj, Fields, end, field, decode_fields, names_field, string_field,
  int_field, unmarshal,
}
use pfsense_agent.Json.Nested.{int64_field}
use pfsense_agent.Protocol.{Received, CommandPayload, command, decode_payload, set_command}
use pfsense_agent.Protocol.Wire.{type_text, set_envelope, decode_envelope}

-- `omitempty` leaves out an empty text, an absent message and a zero.
abbrev text_unless_empty : String → String → Fields → Fields
text_unless_empty name s rest = if str_eq s "" then rest else field name (str s) rest

abbrev message_if_any : String → Option Json → Fields → Fields
message_if_any name none rest = rest
message_if_any name (some v) rest = field name v rest

abbrev number_unless_zero : String → ℤ → Fields → Fields
number_unless_zero name (pos zero) rest = rest
number_unless_zero name (pos (suc n)) rest = field name (integer (pos (suc n))) rest
number_unless_zero name (negsuc n) rest = field name (integer (negsuc n)) rest

abbrev written_payload : Option Json → Json
written_payload none = null
written_payload (some v) = v

abbrev pub envelope_fields : Received → Fields
envelope_fields env = field "v" (integer env.v) (
    field "id" (str env.id) (
      field "type" (str (type_text env.type)) (
        field "agent_type" (str env.agent_type) (
          field "agent_uuid" (str env.agent_uuid) (
            field "timestamp" (integer env.timestamp) (
              text_unless_empty "reply_to" env.reply_to
                (field "payload" (written_payload env.payload) end)))))))

abbrev pub command_fields : CommandPayload → Fields
command_fields cmd =
    field "operation" (str cmd.operation)
      (message_if_any "params" cmd.params (number_unless_zero "timeout_s" cmd.timeout_s end))

-- An envelope of a command, with a payload, is decoded from its fields to itself.
pub decode_envelope_lem :
    (env : Received) (payload : Json)
    → env.type ≡ command
    → env.payload ≡ some payload
    → decode_envelope (obj (envelope_fields env)) ≡ ok env
unfolding decode_envelope unmarshal decode_fields set_envelope names_field string_field int_field
    int64_field
decode_envelope_lem env payload kind given = elim (Bool-cases (str_eq env.reply_to "")) [
  | inl absent ↦ rw ((eq_iff env.reply_to "").0 absent, kind, given) refl
  | inr present ↦ rw (present, kind, given) refl
]

unmarshal_command :
    (op : String) (params : Option Json) (t : ℤ)
    → unmarshal "protocol.CommandPayload" set_command
        (record { operation = ""; params = none; timeout_s = pos 0 })
        (some (obj (command_fields (record { operation = op; params = params; timeout_s = t }))))
      ≡ ok (record { operation = op; params = params; timeout_s = t })
unfolding unmarshal decode_fields set_command names_field string_field int_field
unmarshal_command op none (pos zero) = refl
unmarshal_command op none (pos (suc n)) = refl
unmarshal_command op none (negsuc n) = refl
unmarshal_command op (some v) (pos zero) = refl
unmarshal_command op (some v) (pos (suc n)) = refl
unmarshal_command op (some v) (negsuc n) = refl

-- A payload is decoded from the fields of its command to that command.
pub decode_payload_lem :
    (env : Received) (cmd : CommandPayload)
    → env.payload ≡ some (obj (command_fields cmd))
    → decode_payload env ≡ ok cmd
unfolding decode_payload
decode_payload_lem env cmd given =
    rw given (unmarshal_command cmd.operation cmd.params cmd.timeout_s)
