-- ===== src/Tests/Announcements.antt =====
-- The announced capabilities, the telemetry interval and loops, identifiers and envelopes.
use pfsense_agent.Base.{
  ℕ, String, ◌≡◌, refl, ◌↔◌, true, false, none, some, List, [], ◌∷◌, All, contains,
}
use pfsense_agent.Base.Int.{ℤ, pos}
use pfsense_agent.Protocol.{OperationSchema, cpu, output_marshals, Output}
use pfsense_agent.Dispatcher.Operation.{label, dhcp_leases}
use pfsense_agent.Publisher.Catalog.{catalog, lookup, IsFirewallOperation, lookup-eq-none_iff}
use pfsense_agent.Publisher.Capabilities.{capabilities_payload}
use pfsense_agent.Publisher.Capabilities.Laws.{Announced, capabilities-Announced}
use pfsense_agent.Publisher.Interval.{clamp}
use pfsense_agent.Publisher.Interval.Deadlock.{
  State, Reach, here, next, call, send, update, AtLeastMin, draining, quiet, stuck, wait_forever,
}
use pfsense_agent.Config.{defaults}
use pfsense_agent.Publisher.New.{Publisher, new, at_rest}
use pfsense_agent.Publisher.New.Laws.{new-AtLeastMin}
use pfsense_agent.Tests.Fixtures.{conn, blind_system}
use pfsense_agent.Publisher.Loops.{Event, done, tick, new_interval, telemetry_loop}

abbrev allowed : List String
allowed = "exec" ∷ "vm.reboot" ∷ "no.such" ∷ []

capabilities-Announced_example :
    All (Announced allowed) (capabilities_payload [] allowed ("uptime" ∷ [])).operations
capabilities-Announced_example = capabilities-Announced [] allowed ("uptime" ∷ []) (λ e. cc)

abbrev reboot_schema : OperationSchema
reboot_schema = record { operation = "vm.reboot"; params = [] }

reboot_known : lookup "vm.reboot" catalog ≡ some reboot_schema
unfolding lookup
reboot_known = refl

reboot_listed : contains allowed "vm.reboot" ≡ true
unfolding contains
reboot_listed = refl

lookup-eq-none_iff_example :
    (lookup (label dhcp_leases) catalog ≡ none) ↔ IsFirewallOperation dhcp_leases
lookup-eq-none_iff_example = lookup-eq-none_iff dhcp_leases

abbrev minute : ℤ
minute = pos 60000000000

abbrev publisher : Publisher ℕ
publisher = new conn blind_system "vm-1" (record defaults.agent { telemetry_interval = minute })

-- A request for 5 nanoseconds has reached the ticker.
abbrev paced : State
paced = record (at_rest publisher) { period = clamp (pos 5) }

abbrev to_paced : Reach (at_rest publisher) paced
to_paced =
    next
      (next (next here (call (at_rest publisher) (pos 5) refl)) (send _ (clamp (pos 5)) refl refl))
      (update _ (clamp (pos 5)) refl)

new-AtLeastMin_example : AtLeastMin paced.period
new-AtLeastMin_example =
    new-AtLeastMin conn blind_system "vm-1" (record defaults.agent { telemetry_interval = minute })
      paced (λ e. refl) to_paced

wait_forever_example :
    Reach (quiet minute) (stuck (pos 5) minute)
    × ((stuck (pos 5) minute).caller ≡ draining (clamp minute))
wait_forever_example = wait_forever minute (pos 5) minute (stuck (pos 5) minute) here

abbrev ones : ℕ → ℕ
ones i = 255

-- A usage that gopsutil reports as no number.
abbrev no_number : Output
no_number =
    cpu (record {
      usage_pct = record { num = 0; den = 0 };
      core_count = 1;
      load_avg = [];
      cores = [];
    })

unmarshalled : output_marshals no_number ≡ false
unfolding output_marshals
unmarshalled = refl

abbrev events : List Event
events = tick ∷ new_interval minute ∷ done ∷ tick ∷ []

thrice_sent : (telemetry_loop (pos 0) events).sent ≡ 3
unfolding telemetry_loop
thrice_sent = refl
