-- ===== src/Lib.antt =====
-- The agent of a pfSense virtual machine: it takes commands over NATS, runs them on the machine, and
-- publishes telemetry. This library models the agent's own logic, and proves what makes it correct.
--
-- How a command travels: internal/nats/client.go drops what is no envelope of version 1 (Nats), the
-- handler in cmd/agent/main.go passes the rest to `Dispatch` and sends its result (Agent/Handler),
-- `Dispatch` in internal/dispatcher/dispatcher.go checks the allow list and decodes the parameters
-- (Dispatcher/Dispatch, Dispatcher/Params), and `run` calls the modules (Dispatcher/Operation for the
-- switch, Dispatcher/Run for the operations). Before that, the agent resolves its identity
-- (Agent/Identity) and provisions the machine once (Agent/Boot), in the order of Agent/Start.
--
-- Which file models which part:
--   Base, Json           the parts of Go's strings, errors, int64 and encoding/json that the agent uses
--   Protocol             internal/protocol/envelope.go: `New` is new, `ResultFor` is result_for;
--                        Protocol/Wire is the decoding of an envelope
--   Dispatcher           internal/dispatcher/dispatcher.go: `Dispatch` is dispatch, `run` is run;
--                        Dispatcher/Allowed is `New` with its map of operations
--   Nats                 internal/nats/client.go: the subjects, the filter, publishing
--   Publisher            internal/publisher/publisher.go: `sendCapabilities`, `SetTelemetryInterval` and
--                        the loops; Publisher/Interval/Deadlock has the interleavings of the channel,
--                        Publisher/Start those of the loops, and Publisher/New is `New`
--   Executor             internal/executor/executor.go: `ExecuteWithStdin` is execute_with_stdin
--   Pfsense              internal/modules/pfsense: the types and the interface; Pfsense/NetMatch is
--                        netmatch.go, Pfsense/Freebsd is pfsense_freebsd.go, and Pfsense/Stub is
--                        pfsense_stub.go
--   Services             internal/modules/services: the types; Services/Linux is linux.go, and
--                        Services/Unsupported is freebsd.go and windows.go
--   DiskResize           internal/modules/diskresize: the types; DiskResize/Device and DiskResize/Linux
--                        are linux.go, and DiskResize/Platforms is freebsd.go and windows.go
--   System               internal/modules/system/types.go: the types and the module's interface;
--                        System/Network and System/Disk are `GetNetwork` and `GetDisk` of system.go,
--                        and System/Collect is the rest of it
--   IsoConfig            pkg/isoconfig/reader.go: the metadata and its accessors; IsoConfig/Decode and
--                        IsoConfig/Devices are its decoding, IsoConfig/Load is load.go with the
--                        reader, and IsoConfig/Locate is locator_linux.go, locator_freebsd.go
--                        and locator_windows.go
--   Config               internal/config/config.go: `Load` is load, `setDefaults` is defaults
--   Agent                cmd/agent/main.go: Agent/Start is `run` and `buildLogger`, Agent/Marker is the
--                        marker file, Agent/Live is the agent after its start, and Agent/Platform is
--                        `newServiceManager` of platform_linux.go and the other platforms
--   Control              cmd/ctl/main.go and pkg/cmdutil/output.go: `doRequest` is do_request, and
--                        `fetchAndPrint` is fetch_and_print
--   Tests                the theorems at concrete inputs
--
-- State is passed explicitly: code that changes something takes a world `W` and gives it back,
-- beside a result that is a value or an error (Base/Results). The world is a parameter wherever
-- code that is not in the repository decides what it holds. The goroutines around the interval
-- channel, the loops of the publisher, and the running agent, where the messages of the
-- subscription fall between the steps of those loops, are step relations; the handling of a
-- message, and a send, is one step. Every call of a module is taken to return: a call of
-- `SetTelemetryInterval` that the telemetry loop interleaves with may not, which
-- Publisher/Interval/Deadlock shows, and Publisher/Interval/Alone has the others. Every loop is a
-- structural recursion, so none needs fuel but the printing of numbers, whose fuel is the number
-- itself, and the loop of `formatBytes`, whose six rounds are enough for a `uint64`
-- (Control/Format/Laws). An `int64` keeps its wrap-around (Base/Int).
--
-- Parameters, since their code is not in the repository: os/exec, the file system and the network
-- interfaces, the parsing of a text to JSON, NATS, systemd's D-Bus, gopsutil, viper, PowerShell,
-- and the output of the PHP scripts. A float is a ratio whose denominator is 0 if it is no number.
-- Letters are folded within ASCII.
--
-- Not modelled: what viper, zap, cobra and nats.go do inside, the PHP scripts, and what the agent
-- only logs.
pub mod Base
pub mod Json
pub mod Config
pub mod Services
pub mod DiskResize
pub mod System
pub mod IsoConfig
pub mod Pfsense
pub mod Protocol
pub mod Dispatcher
pub mod Nats
pub mod Publisher
pub mod Executor
pub mod Agent
pub mod Control
pub mod Tests
