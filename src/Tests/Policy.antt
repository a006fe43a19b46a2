-- ===== src/Tests/Policy.antt =====
-- Dispatchers that are configured alike, and an update that takes too long.
use mathlib.Core.Quot
use pfsense_agent.Base.{
  decimal, ℕ, zero, suc, String, ◌≡◌, refl, true, false, none, some, List, [], ◌∷◌, ok, err, plain,
}
use pfsense_agent.Executor.{duration_text, Invocation, Completion, World, execute, new, not_run}
use pfsense_agent.Dispatcher.{Dispatcher, linux}
use pfsense_agent.Pfsense.Stub.{stub_manager}
use pfsense_agent.Dispatcher.OsRelease.{debian_distro}
use pfsense_agent.Dispatcher.Run.{update}
use pfsense_agent.Dispatcher.Run.Timeout.{update_times_out}
use pfsense_agent.Tests.Fixtures.{blind_system, no_services, unavailable, dispatcher}

abbrev repeated : List String
repeated = "exec" ∷ dispatcher.allowed_ops

-- A host over the number of processes, whose second one takes too long.
abbrev slow : Invocation → ℕ → Completion × ℕ
slow i n = (
  record {
    stdout = "";
    stderr = "";
    failure = elim n [ zero ↦ none | suc m ↦ some (not_run (plain "signal: killed")) ];
    deadline_exceeded = elim n [ zero ↦ false | suc m ↦ true ];
  },
  suc n,
)

abbrev ubuntu : Dispatcher (World ℕ)
ubuntu = record {
  ports = record {
    system = blind_system;
    services = no_services;
    pfsense = stub_manager;
    resizer = record { resize = λ target. unavailable };
    execute = execute (new slow);
    send_capabilities = unavailable;
    set_telemetry_interval = λ n w. (n, w);
    read_os_release = λ w. (ok "ID=ubuntu", w);
  };
  allowed_ops = "system.update" ∷ [];
  allowed_commands = [];
  agent_uuid = "vm-1";
  agent_version = "0.2.0";
  goos = linux;
}

abbrev quiet : World ℕ
quiet = record { host = 0; audit = [] }

update_times_out_example :
    (update ubuntu quiet).0 ≡ err (plain "command timed out after 30s: apt-get")
unfolding debian_distro execute
update_times_out_example =
    update_times_out slow ubuntu (λ command args w. refl) "ID=ubuntu" quiet quiet
      (not_run (plain "signal: killed")) refl refl refl refl refl

minute_and_half : duration_text 90 ≡ "1m30s"
unfolding decimal
minute_and_half = refl
