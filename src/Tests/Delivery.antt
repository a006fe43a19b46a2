-- ===== src/Tests/Delivery.antt =====
-- An agent that is asked to set a password, which it does not allow, over a world that keeps the
-- password and all messages that were sent.
use mathlib.Core.Bool.{true≢false}
use mathlib.Core.Path.{subst}
use pfsense_agent.Base.{
  String, ◌≡◌, refl, sym, true, none, List, [], ◌∷◌, ◌++◌, ok, All, if◌then◌else◌, Option, inl, inr,
  Bool-cases, contains, str_eq, eq_iff,
}
use pfsense_agent.Base.Results.Keeps.{Keeps}
use pfsense_agent.Json.{Json}
use pfsense_agent.Protocol.{Received, Sent}
use pfsense_agent.Protocol.Laws.{is_result}
use pfsense_agent.Pfsense
use pfsense_agent.Nats.{Connection, accept}
use pfsense_agent.Dispatcher.{Ports, Dispatcher, freebsd}
use pfsense_agent.Dispatcher.Params.{Params}
use pfsense_agent.Dispatcher.Operation.{switch}
use pfsense_agent.Dispatcher.Run.{run, run_case, run_exec, run_tool}
use pfsense_agent.Dispatcher.Run.Keeps.{KeepsPorts}
use pfsense_agent.Dispatcher.Run.Defaults.{KeepsDefaults, system_tools}
use pfsense_agent.Config.{defaults}
use pfsense_agent.Agent.Live.Defaults.{defaults_confine}
use pfsense_agent.Dispatcher.Dispatch.Answers.{IsAnswered}
use pfsense_agent.Agent.Live.{
  introduce, announce, Live, Reach, here, next, receive, publish, sent, begun, deliver,
}
use pfsense_agent.Base.Int.{pos}
use pfsense_agent.Publisher.Start.{heartbeats}
use pfsense_agent.Publisher.Start
use pfsense_agent.Agent.Live.Laws.{commands_of, commands_in}
use pfsense_agent.Agent.Live.Keeps.{begun_keeps}
use pfsense_agent.Agent.Live.Delivery.{Outbox, replies_of, begun-results}
use pfsense_agent.Tests.Fixtures.{
  blind_system, no_services, unavailable, stamp, command_of, password_of, message_of,
}

record Router : Type 0 where
  password : String
  messages : List (String × Sent)
  processes : List String

abbrev wire : Connection Router
wire = record {
  publish = λ subject env w. (none, record w { messages = (subject, env) ∷ w.messages });
}

abbrev results_in : List (String × Sent) → List (String × Sent)
results_in [] = []
results_in ((subject, env) ∷ rest) =
    let later = results_in rest in if is_result env then (subject, env) ∷ later else later

abbrev outbox : Outbox wire
outbox = record {
  results = λ w. results_in w.messages;
  publish_result = λ subject env w e. rw e refl;
  publish_other = λ subject env w e. rw e refl;
}

abbrev router_manager : Pfsense.Manager Router
router_manager = record {
  set_password = λ user password w. (
    ok (record { username = user; success = true; message = "password updated" }),
    record w { password = password },
  );
  set_default_user_password = λ password. unavailable;
  apply_boot_network_config = λ cards. unavailable;
  revert = λ snapshot. unavailable;
  list_firewall_rules = unavailable;
  create_firewall_rule = λ input. unavailable;
  delete_firewall_rule = λ tracker. unavailable;
  list_port_forwards = unavailable;
  create_port_forward = λ input. unavailable;
  delete_port_forward = λ tracker. unavailable;
  list_dhcp_leases = unavailable;
}

abbrev router_ports : Ports Router
router_ports = record {
  system = blind_system;
  services = no_services;
  pfsense = router_manager;
  resizer = record { resize = λ target. unavailable };
  execute = λ name args w. (
    record { stdout = "done"; stderr = ""; failure = none },
    record w { processes = name ∷ w.processes },
  );
  send_capabilities = unavailable;
  set_telemetry_interval = λ n w. (n, w);
  read_os_release = unavailable;
}

abbrev router : Dispatcher Router
router = record {
  ports = router_ports;
  allowed_ops = "exec" ∷ [];
  allowed_commands = "uptime" ∷ [];
  agent_uuid = "vm-1";
  agent_version = "0.2.0";
  goos = freebsd;
}

ports_kept : KeepsPorts outbox.results router_ports
ports_kept = record {
  defaults = record {
    get_info = λ w. refl;
    get_metrics = λ w. refl;
    get_cpu = λ w. refl;
    get_memory = λ w. refl;
    get_disk = λ w. refl;
    get_network = λ w. refl;
    list_services = λ w. refl;
    get_service = λ name w. refl;
    perform = λ a name w. refl;
    execute_tool = λ command args w tool. refl;
    send_capabilities = λ w. refl;
    set_telemetry_interval = λ period w. refl;
    read_os_release = λ w. refl;
  };
  execute = λ command args w. refl;
  set_password = λ user password w. refl;
  list_firewall_rules = λ w. refl;
  create_firewall_rule = λ input w. refl;
  delete_firewall_rule = λ tracker w. refl;
  list_port_forwards = λ w. refl;
  create_port_forward = λ input w. refl;
  delete_port_forward = λ tracker w. refl;
  list_dhcp_leases = λ w. refl;
  resize = λ target w. refl;
}

abbrev quiet : Router
quiet = record { password = "first"; messages = []; processes = [] }

abbrev set_password_command : Received
set_password_command = command_of "pfsense.set_password" (password_of "second")

abbrev running : Live Router
running = begun wire router stamp quiet

-- The first message arrives before the capabilities are sent.
abbrev told : Live Router
told = deliver wire router stamp (ok set_password_command) running

abbrev known : Live Router
known = announce wire router stamp [] told

abbrev beating : Live Router
beating = record known {
  publisher = Start.sending wire router_ports.system stamp "vm-1" heartbeats known.publisher;
  events = sent heartbeats ∷ known.events;
}

-- The second message is of a version that is not accepted.
abbrev foreign : Received
foreign = message_of (pos 2) "exec" (password_of "third")

abbrev asked : Live Router
asked = deliver wire router stamp (ok foreign) beating

abbrev path : Reach wire router stamp running asked
path =
    next
      (next (next (next here (receive running (ok set_password_command))) (introduce told [] refl))
        (publish known (Start.begin heartbeats known.publisher refl) refl))
      (receive beating (ok foreign))

begun-results_example :
    (results_in asked.publisher.world.messages
      ≡ replies_of wire router stamp outbox asked.answers ++ [])
    × (commands_of asked.answers ≡ commands_in asked.events)
    × All (λ a. IsAnswered router stamp a.command a.world a.reply) asked.answers
begun-results_example =
    begun-results wire router stamp outbox ports_kept (λ w. (refl, refl, refl, refl)) quiet asked
      path

-- One of the two messages is answered.
one_answer : commands_of asked.answers ≡ set_password_command ∷ []
unfolding accept
one_answer = refl

-- The password is out of reach of the one operation that is allowed.
run-exec_keeps :
    (p : Params) (raw : Option Json) → Keeps (λ w. w.password) (run router "exec" p raw)
unfolding run run_case run_exec run_tool switch
run-exec_keeps p raw w = elim (Bool-cases (contains ("uptime" ∷ []) p.command)) [
  | inl listed ↦ rw listed refl
  | inr unlisted ↦ rw unlisted refl
]

only_exec : (op : String) → contains ("exec" ∷ []) op ≡ true → "exec" ≡ op
unfolding contains
only_exec op listed = elim (Bool-cases (str_eq op "exec")) [
  | inl same ↦ sym ((eq_iff op "exec").0 same)
  | inr other ↦ absurd (true≢false (sym (rw other at listed)))
]

exec_keeps :
    (op : String)
    → contains ("exec" ∷ []) op ≡ true
    → (p : Params) (raw : Option Json) → Keeps (λ w. w.password) (run router op p raw)
exec_keeps op listed =
    subst (λ op. (p : Params) (raw : Option Json) → Keeps (λ w. w.password) (run router op p raw))
      (only_exec op listed) run-exec_keeps

begun_keeps_example : asked.publisher.world.password ≡ "first"
begun_keeps_example =
    begun_keeps (λ w. w.password) wire router stamp (λ w. refl) (λ w. refl) (λ subject env w. refl)
      exec_keeps quiet asked path

-- The same agent with the default operations, which leave the password and all other processes alone.
abbrev default_router : Dispatcher Router
default_router = record router { allowed_ops = defaults.agent.allowed_operations }

abbrev other_processes : List String → List String
other_processes [] = []
other_processes (name ∷ names) =
    let later = other_processes names in if contains system_tools name then later else name ∷ later

abbrev guarded : Router → String × List String
guarded w = (w.password, other_processes w.processes)

guarded_kept : KeepsDefaults guarded router_ports
guarded_kept = record {
  get_info = λ w. refl;
  get_metrics = λ w. refl;
  get_cpu = λ w. refl;
  get_memory = λ w. refl;
  get_disk = λ w. refl;
  get_network = λ w. refl;
  list_services = λ w. refl;
  get_service = λ name w. refl;
  perform = λ a name w. refl;
  execute_tool = λ command args w tool. rw tool refl;
  send_capabilities = λ w. refl;
  set_telemetry_interval = λ period w. refl;
  read_os_release = λ w. refl;
}

abbrev idle : Live Router
idle = begun wire default_router stamp quiet

abbrev tried : Live Router
tried = deliver wire default_router stamp (ok set_password_command) idle

defaults_confine_example : guarded tried.publisher.world ≡ ("first", [])
defaults_confine_example =
    defaults_confine guarded wire default_router stamp refl guarded_kept (λ subject env w. refl)
      quiet tried (next here (receive idle (ok set_password_command)))
