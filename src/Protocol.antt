-- ===== src/Protocol.antt =====
-- internal/protocol/envelope.go: the envelope of every NATS message, and the payloads.
pub mod Uuid
pub mod Laws
pub mod Wire
use pfsense_agent.Base.{
  ℕ, String, Bool, true, false, ◌&&◌, not, Option, none, some, List, [], ◌∷◌, ◌==◌, str_eq,
  if◌then◌else◌, Result, ok, err, Error, plain,
}
use pfsense_agent.Base.Int.{ℤ, pos}
use pfsense_agent.Json.{
  Json, Setter, Decoded, unmarshal, string_field, int_field, raw_field, set_field, names_field,
}
use pfsense_agent.Services.{ServiceInfo, ActionResult}
use pfsense_agent.DiskResize.{ResizeResult}
use pfsense_agent.System.{
  Float64, SystemInfo, CpuStats, CoreStat, MemoryStats, DiskIo, DiskEntry, NetworkEntry,
  SystemMetrics,
}
use pfsense_agent.Pfsense.{FirewallRule, PortForward, DhcpLease, SetPasswordResult}
use pfsense_agent.Protocol.Uuid.{new_uuid}

pub data Status : Type 0 where
  completed failed rejected : Status

pub data MessageType : Type 0 where
  command heartbeat telemetry disk_health alert ipmi result capabilities : MessageType
  other_type : String → MessageType

pub record OperationParam : Type 0 where
  pub name : String
  pub type : String
  pub required : Bool
  pub min_value : Option ℕ
  pub sensitive : Bool

-- The descriptions for human readers are left out.
pub record OperationSchema : Type 0 where
  pub operation : String
  pub params : List OperationParam

pub record CapabilitiesPayload : Type 0 where
  pub operations : List OperationSchema
  pub exec_commands : List String

-- The `any` that an operation returns, by the Go types that the modules return.
pub data Output : Type 0 where
  info : SystemInfo → Output
  metrics : SystemMetrics → Output
  cpu : CpuStats → Output
  memory : MemoryStats → Output
  disks : List DiskEntry → Output
  network : List NetworkEntry → Output
  service_list : List ServiceInfo → Output
  service : ServiceInfo → Output
  action : ActionResult → Output
  resized : ResizeResult → Output
  texts : List (String × String) → Output
  announced : CapabilitiesPayload → Output
  intervals : (requested applied : ℤ) → Output
  password_set : SetPasswordResult → Output
  rules : List FirewallRule → Output
  rule : FirewallRule → Output
  forwards : List PortForward → Output
  forward : PortForward → Output
  leases : List DhcpLease → Output

pub record CommandPayload : Type 0 where
  pub operation : String
  pub params : Option Json
  pub timeout_s : ℤ

pub record ResultPayload : Type 0 where
  pub command_id : String
  pub status : Status
  pub message : String
  pub output : Option Output

pub record HeartbeatPayload : Type 0 where
  pub version : String
  pub uptime_s : ℤ
  pub tasks_queued : ℕ

pub data Payload : Type 0 where
  of_result : ResultPayload → Payload
  of_heartbeat : HeartbeatPayload → Payload
  of_telemetry : SystemMetrics → Payload
  of_capabilities : CapabilitiesPayload → Payload

-- An envelope over its payload: `Option Json` for one that was received, and the value that was
-- marshalled for one that the agent sends. `none` is the nil payload.
pub record Envelope (P : Type 0) : Type 0 where
  pub v : ℤ
  pub id : String
  pub type : MessageType
  pub agent_type : String
  pub agent_uuid : String
  pub timestamp : ℤ
  pub reply_to : String
  pub payload : Option P

abbrev pub Received : Type 0
Received = Envelope Json

abbrev pub Sent : Type 0
Sent = Envelope Payload

-- Go's `Envelope{}`.
abbrev pub zero_envelope : Sent
zero_envelope = record {
  v = pos 0;
  id = "";
  type = other_type "";
  agent_type = "";
  agent_uuid = "";
  timestamp = pos 0;
  reply_to = "";
  payload = none;
}

-- `json.Marshal` refuses a float that is no number, and of these values nothing else.
unfoldable pub is_finite : Float64 → Bool
is_finite f = not (f.den == 0)

unfoldable pub all_finite : List Float64 → Bool
unfolding is_finite
all_finite [] = true
all_finite (f ∷ fs) = is_finite f && all_finite fs

unfoldable pub cores_finite : List CoreStat → Bool
unfolding is_finite
cores_finite [] = true
cores_finite (c ∷ cs) = is_finite c.usage_pct && cores_finite cs

unfoldable pub cpu_marshals : CpuStats → Bool
unfolding all_finite cores_finite
cpu_marshals s = is_finite s.usage_pct && (all_finite s.load_avg && cores_finite s.cores)

unfoldable pub io_marshals : Option DiskIo → Bool
unfolding is_finite
io_marshals none = true
io_marshals (some io) =
    is_finite io.read_bytes_per_s
    && (is_finite io.write_bytes_per_s
        && (is_finite io.read_iops && (is_finite io.write_iops && is_finite io.util_pct)))

unfoldable pub disks_marshal : List DiskEntry → Bool
unfolding is_finite io_marshals
disks_marshal [] = true
disks_marshal (d ∷ ds) = (is_finite d.usage_pct && io_marshals d.io) && disks_marshal ds

unfoldable pub metrics_marshal : SystemMetrics → Bool
unfolding cpu_marshals disks_marshal is_finite
metrics_marshal m = cpu_marshals m.cpu && (is_finite m.memory.usage_pct && disks_marshal m.disks)

unfoldable pub output_marshals : Output → Bool
unfolding metrics_marshal cpu_marshals disks_marshal is_finite
output_marshals (metrics m) = metrics_marshal m
output_marshals (cpu s) = cpu_marshals s
output_marshals (memory s) = is_finite s.usage_pct
output_marshals (disks ds) = disks_marshal ds
output_marshals _ = true

unfoldable pub marshals : Payload → Bool
unfolding output_marshals metrics_marshal
marshals (of_result r) = elim r.output [ none ↦ true | some o ↦ output_marshals o ]
marshals (of_heartbeat h) = true
marshals (of_telemetry m) = metrics_marshal m
marshals (of_capabilities c) = true

-- The random bytes and the time that an envelope is built with.
pub record Stamp : Type 0 where
  pub random : ℕ → ℕ
  pub now : ℕ

-- `New`, with the envelope that it returns beside an error.
unfoldable pub new : Stamp → String → MessageType → Payload → Sent × Option Error
unfolding marshals
new stamp agent_uuid msg_type payload =
    if marshals payload
    then (
      record {
        v = pos 1;
        id = new_uuid stamp.random;
        type = msg_type;
        agent_type = "vm";
        agent_uuid = agent_uuid;
        timestamp = pos stamp.now;
        reply_to = "";
        payload = some payload;
      },
      none,
    )
    else (zero_envelope, some (plain "marshalling payload: json: unsupported value"))

unfoldable pub result_for :
    Stamp → Received → String → Status → String → Option Output → Sent × Option Error
unfolding new
result_for stamp src agent_uuid status message output = new stamp agent_uuid result (
    of_result (record { command_id = src.id; status = status; message = message; output = output }))

set_command : Setter CommandPayload
unfolding names_field string_field int_field
set_command key v c =
    if names_field key "operation"
    then set_field (string_field "CommandPayload" "operation" v c.operation)
        (λ s. record c { operation = s })
    else if names_field key "params"
    then set_field (raw_field v c.params) (λ r. record c { params = r })
    else if names_field key "timeout_s"
    then set_field (int_field "CommandPayload" "timeout_s" v c.timeout_s)
        (λ n. record c { timeout_s = n })
    else (c, none)

-- `DecodePayload` into a `CommandPayload`.
unfoldable pub decode_payload : Received → Result CommandPayload
unfolding unmarshal set_command
decode_payload env =
    unmarshal "protocol.CommandPayload" set_command
      (record { operation = ""; params = none; timeout_s = pos 0 }) env.payload
