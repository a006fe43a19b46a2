-- ===== src/Tests/Publishing.antt =====
-- The two loops of the publisher, after the first heartbeat and the end of the context.
use pfsense_agent.Base.{ℕ, ok, ◌≡◌, refl, true, [], ◌∷◌, ◌++◌}
use pfsense_agent.Base.Int.{pos}
use pfsense_agent.System.{SystemModule}
use pfsense_agent.Publisher.Capabilities.{send_capabilities}
use pfsense_agent.Publisher.Loops.{send_heartbeat}
use pfsense_agent.Publisher.Start.{
  heartbeats, telemetries, ended, State, sending, start, begin, cancel, Reach, here, next,
}
use pfsense_agent.Publisher.Start.Ends.{unsent, loops_end}
use pfsense_agent.Protocol.{new}
use pfsense_agent.Nats.{publish_event}
use pfsense_agent.Tests.Fixtures.{conn, stamp, blind_system}

-- A system of which only the host is known, so that a heartbeat can be sent.
abbrev known : SystemModule ℕ
known = record blind_system {
  get_info = λ w. (
    ok (record {
      hostname = "fw";
      os = "freebsd";
      kernel_version = "15.0";
      architecture = "amd64";
      uptime = pos 60;
      boot_time = pos 0;
      vm_id = "vm-1";
      tenant_id = "";
    }),
    w,
  );
}

abbrev begun : State ℕ
begun = start conn known stamp "vm-1" [] ("exec" ∷ []) ("uptime" ∷ []) 0

abbrev beaten : State ℕ
beaten = sending conn known stamp "vm-1" heartbeats begun

abbrev cancelled : State ℕ
cancelled = record beaten { is_done = true }

reached : Reach conn known stamp "vm-1" begun cancelled
reached = next (next here (begin heartbeats begun refl)) (cancel beaten)

-- The capabilities and the heartbeat have reached the connection.
two_messages : cancelled.world ≡ 20
unfolding send_capabilities send_heartbeat new publish_event
two_messages = refl

loops_end_example :
    (t : State ℕ) × Reach conn known stamp "vm-1" cancelled t
    × (t.heartbeat ≡ ended)
    × (t.telemetry ≡ ended)
    × (t.sent
        ≡ unsent telemetries cancelled.telemetry
          ++ (unsent heartbeats cancelled.heartbeat ++ cancelled.sent))
loops_end_example = loops_end conn known stamp "vm-1" cancelled refl
