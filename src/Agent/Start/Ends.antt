-- ===== src/Agent/Start/Ends.antt =====
-- When the start of the agent in cmd/agent/main.go succeeds.
use pfsense_agent.Base.{◌≡◌, ap, ◌∙◌, none, List, ok, ◌>>◌}
use pfsense_agent.Base.Results.Succeeds.{bind-wrapped}
use pfsense_agent.IsoConfig.{IsoMetadata, agent_settings}
use pfsense_agent.Config.{Config, load}
use pfsense_agent.Dispatcher.{Goos}
use pfsense_agent.Agent.Identity.{Identity, resolve_identity}
use pfsense_agent.Agent.Start.{
  Core, Ports, deferred, act, build_logger, provision_on, serve, connect_and_serve, start, run,
}
use pfsense_agent.Agent.Start.Begins.{metadata, run_begins}
use pfsense_agent.Agent.Start.Laws.{connected, subscribed, provisioned}

module _ {W : Type 0} (ports : Ports W) (goos : Goos) where
  serve_ends :
      (cfg : Config) (id : Identity) (t s : W)
      → subscribed ports goos id t ≡ (ok tt, s)
      → serve ports goos cfg id t
        ≡ (ok tt, ports.cancel (ports.wait (ports.start_publisher cfg id s)))
  unfolding serve
  serve_ends cfg id t s accepted =
      bind-wrapped "subscribing to NATS cmd subject: " (subscribed ports goos id)
        (λ _. act (ports.start_publisher cfg id) >> act ports.wait >> act ports.cancel) tt t s
        accepted

  connect_and_serve_ends :
      (cfg : Config) (iso : IsoMetadata) (id : Identity) (u t s : W)
      → connected ports goos cfg id (provision_on ports goos cfg iso id u) ≡ (ok tt, t)
      → subscribed ports goos id t ≡ (ok tt, s)
      → connect_and_serve ports goos cfg iso id u
        ≡ (ok tt, ports.drain (ports.cancel (ports.wait (ports.start_publisher cfg id s))))
  unfolding connect_and_serve
  connect_and_serve_ends cfg iso id u t s reached accepted =
      bind-wrapped "NATS connection failed: " (connected ports goos cfg id)
        (λ _. deferred ports.drain (serve ports goos cfg id)) tt
        (provision_on ports goos cfg iso id u) t reached
      ∙ ap (λ p. (p.0, ports.drain p.1)) (serve_ends cfg id t s accepted)

  -- The state in which a start that has served ends.
  abbrev ended : Config → IsoMetadata → W → W
  ended cfg iso s = ports.close_services (
      ports.drain
        (ports.cancel (ports.wait (ports.start_publisher cfg (resolve_identity cfg.nats iso) s))))

  start_ends :
      (cfg : Config) (iso : IsoMetadata) (v t s : W)
      → connected ports goos cfg
          (resolve_identity cfg.nats iso)
          (provisioned ports goos cfg iso (ports.open_services v))
        ≡ (ok tt, t)
      → subscribed ports goos (resolve_identity cfg.nats iso) t ≡ (ok tt, s)
      → start ports goos cfg iso v ≡ (ok tt, ended cfg iso s)
  unfolding start
  start_ends cfg iso v t s reached accepted =
      ap (λ p. (p.0, ports.close_services p.1))
        (connect_and_serve_ends cfg iso (resolve_identity cfg.nats iso) (ports.open_services v) t s
          reached accepted)

  -- If both configurations load, both loggers can be built, the server accepts the connection and then
  -- the subscription, the agent serves until the signal and ends without an error, whatever the
  -- metadata and the provisioning are; and all that was opened is closed, the last one first.
  pub run_ends :
      (w u v t s : W) (boot_cfg cfg : Config) (boot_cores cores : List Core)
      → load ports.viper none ≡ ok boot_cfg
      → build_logger ports.logs boot_cfg.log w ≡ (ok boot_cores, u)
      → load ports.viper (agent_settings (metadata ports goos boot_cfg u)) ≡ ok cfg
      → build_logger ports.logs cfg.log (ports.load_metadata boot_cfg.iso u).1 ≡ (ok cores, v)
      → connected ports goos cfg
          (resolve_identity cfg.nats (metadata ports goos boot_cfg u))
          (provisioned ports goos cfg (metadata ports goos boot_cfg u) (ports.open_services v))
        ≡ (ok tt, t)
      → subscribed ports goos (resolve_identity cfg.nats (metadata ports goos boot_cfg u)) t
        ≡ (ok tt, s)
      → run ports goos w ≡ (
        ok tt,
        ports.cancel (
            ports.sync (
              ports.close_services (
                ports.drain (
                  ports.cancel (
                    ports.wait (
                      ports.start_publisher cfg
                        (resolve_identity cfg.nats (metadata ports goos boot_cfg u))
                        s)))))),
      )
  run_ends w u v t s boot_cfg cfg boot_cores cores loaded logged read built reached accepted =
      let iso = metadata ports goos boot_cfg u in
      run_begins ports goos w u v (ended cfg iso s) boot_cfg cfg boot_cores cores (ok tt) loaded
        logged read built (start_ends cfg iso v t s reached accepted)
