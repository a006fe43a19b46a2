-- ===== src/Publisher/Start/Ends.antt =====
-- How the loops of internal/publisher/publisher.go end with their context.
use pfsense_agent.Base.{String, true, List, [], ◌∷◌, ◌++◌, ◌≡◌, refl, ap, ◌∙◌}
use pfsense_agent.Nats.{Connection}
use pfsense_agent.Protocol.{Stamp}
use pfsense_agent.System.{SystemModule}
use pfsense_agent.Publisher.Start.{
  Loop, heartbeats, telemetries, Phase, starting, waiting, ended, State, phase, set_phase, sending,
  begin, stop, Reach, here, next,
}

-- What a loop has still to send: a loop that has not begun sends once.
abbrev pub unsent : Loop → Phase → List Loop
unsent l starting = l ∷ []
unsent l _ = []

abbrev other : Loop → Loop
other heartbeats = telemetries
other telemetries = heartbeats

module _ {W : Type 0} (conn : Connection W) (sys : SystemModule W) (stamp : Stamp)
    (agent_uuid : String) where
  trans :
      {s t u : State W}
      → Reach conn sys stamp agent_uuid s t
      → Reach conn sys stamp agent_uuid t u
      → Reach conn sys stamp agent_uuid s u
  trans r here = r
  trans r (next q step) = next (trans r q) step

  -- One loop comes to its end, and leaves the other one where it is.
  abbrev CanEnd : Loop → Phase → State W → Type 0
  CanEnd l p s =
      (t : State W) × Reach conn sys stamp agent_uuid s t
      × (phase l t ≡ ended)
      × (t.is_done ≡ true)
      × (t.sent ≡ unsent l p ++ s.sent)
      × (phase (other l) t ≡ phase (other l) s)

  end_loop : (l : Loop) (p : Phase) (s : State W) → phase l s ≡ p → s.is_done ≡ true → CanEnd l p s
  end_loop l ended s e d = (s, here, e, d, refl, refl)
  end_loop heartbeats waiting s e d =
      (set_phase heartbeats ended s, next here (stop heartbeats s d e), refl, d, refl, refl)
  end_loop telemetries waiting s e d =
      (set_phase telemetries ended s, next here (stop telemetries s d e), refl, d, refl, refl)
  end_loop heartbeats starting s e d =
      let t = sending conn sys stamp agent_uuid heartbeats s in
      (
        set_phase heartbeats ended t,
        next (next here (begin heartbeats s e)) (stop heartbeats t d refl),
        refl,
        d,
        refl,
        refl,
      )
  end_loop telemetries starting s e d =
      let t = sending conn sys stamp agent_uuid telemetries s in
      (
        set_phase telemetries ended t,
        next (next here (begin telemetries s e)) (stop telemetries t d refl),
        refl,
        d,
        refl,
        refl,
      )

  -- Once the context has ended, both loops can return from any state, and nothing has to be sent for that
  -- but the first message of a loop that has not begun.
  pub loops_end :
      (s : State W)
      → s.is_done ≡ true
      → (t : State W) × Reach conn sys stamp agent_uuid s t
        × (t.heartbeat ≡ ended)
        × (t.telemetry ≡ ended)
        × (t.sent ≡ unsent telemetries s.telemetry ++ (unsent heartbeats s.heartbeat ++ s.sent))
  loops_end s d =
      let (t, r, he, d', sent, kept) = end_loop heartbeats s.heartbeat s refl d in
      let (u, q, te, d'', sent', kept') = end_loop telemetries s.telemetry t kept d' in
      (u, trans r q, kept' ∙ he, te, sent' ∙ ap (λ ls. unsent telemetries s.telemetry ++ ls) sent)
