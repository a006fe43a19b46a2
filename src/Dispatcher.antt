-- ===== src/Dispatcher.antt =====
-- internal/dispatcher/dispatcher.go: the parts that a dispatcher is made of, its parameters and its
-- log. The switch is in Dispatcher/Operation, the operations in Dispatcher/Run, and `Dispatch` in
-- Dispatcher/Dispatch.
pub mod Operation
pub mod Params
pub mod OsRelease
pub mod Run
pub mod Dispatch
pub mod Allowed
use pfsense_agent.Base.{ℕ, String, List, Option, Error, Io}
use pfsense_agent.Base.Int.{ℤ}
use pfsense_agent.Json.{Json}
use pfsense_agent.Protocol.{CapabilitiesPayload, Output, Status}
use pfsense_agent.Executor.{Execution}
use pfsense_agent.Services
use pfsense_agent.DiskResize.{Resizer}
use pfsense_agent.System.{SystemModule}
use pfsense_agent.Pfsense

-- `runtime.GOOS`, for which the build has the three targets.
pub data Goos : Type 0 where
  linux windows freebsd : Goos

-- The modules that a dispatcher calls, each over one world `W`. Every call is taken to return: that of
-- `SetTelemetryInterval` is a call that the telemetry loop does not interleave with.
pub record Ports (W : Type 0) : Type 0 where
  pub system : SystemModule W
  pub services : Services.Manager W
  pub pfsense : Pfsense.Manager W
  pub resizer : Resizer W
  pub execute : String → List String → W → Execution × W
  pub send_capabilities : Io W CapabilitiesPayload
  pub set_telemetry_interval : ℤ → W → ℤ × W
  pub read_os_release : Io W String

pub record Dispatcher (W : Type 0) : Type 0 where
  pub ports : Ports W
  pub allowed_ops : List String
  pub allowed_commands : List String
  pub agent_uuid : String
  pub agent_version : String
  pub goos : Goos

-- One line of the log, with the fields that it carries; the time that a command took is left out.
pub data LogEntry : Type 0 where
  undecodable : (command_id : String) → Error → LogEntry
  received : (command_id op : String) → LogEntry
  redacted_params : (command_id op : String) → LogEntry
  shown_params : (command_id op : String) → Option Json → LogEntry
  shown_output : (command_id op : String) → Output → LogEntry
  outcome : (command_id op : String) → Status → (message : String) → LogEntry
  not_built : Error → LogEntry
