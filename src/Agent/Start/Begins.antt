-- ===== src/Agent/Start/Begins.antt =====
-- The steps of the start of the agent in cmd/agent/main.go up to its real logger, which come before
-- everything that can end it later.
use pfsense_agent.Base.{◌≡◌, ap, ◌∙◌, none, List, Result, ok, ◌>>=◌, wrapped, lift, Unit0}
use pfsense_agent.Base.Results.Succeeds.{bind-wrapped}
use pfsense_agent.IsoConfig.{IsoMetadata, agent_settings}
use pfsense_agent.Config.{Config, load}
use pfsense_agent.Dispatcher.{Goos}
use pfsense_agent.Agent.Start.{Core, Ports, deferred, build_logger, or_none, start, configure, run}

module _ {W : Type 0} (ports : Ports W) (goos : Goos) where
  -- The metadata that the bootstrap configuration leads to.
  abbrev pub metadata : Config → W → IsoMetadata
  metadata boot_cfg u = or_none (ports.load_metadata boot_cfg.iso u).0

  configure_begins :
      (boot_cfg cfg : Config) (cores : List Core) (u v w : W) (r : Result Unit0)
      → load ports.viper (agent_settings (metadata boot_cfg u)) ≡ ok cfg
      → build_logger ports.logs cfg.log (ports.load_metadata boot_cfg.iso u).1 ≡ (ok cores, v)
      → start ports goos cfg (metadata boot_cfg u) v ≡ (r, w)
      → configure ports goos boot_cfg u ≡ (r, ports.sync w)
  unfolding configure
  configure_begins boot_cfg cfg cores u v w r read built started =
      let iso = metadata boot_cfg u in
      let u' = (ports.load_metadata boot_cfg.iso u).1 in
      bind-wrapped "building config from config-drive metadata: "
        (lift (load ports.viper (agent_settings iso)))
        (λ cfg. wrapped "building logger: " (build_logger ports.logs cfg.log) >>= λ logger.
          deferred ports.sync (start ports goos cfg iso))
        cfg u' u' (ap (λ r. (r, u')) read)
      ∙ bind-wrapped "building logger: " (build_logger ports.logs cfg.log)
          (λ logger. deferred ports.sync (start ports goos cfg iso)) cores u' v built
      ∙ ap (λ p. (p.0, ports.sync p.1)) started

  -- However the part after the loggers ends, the log is flushed and the context is cancelled.
  pub run_begins :
      (w u v w' : W) (boot_cfg cfg : Config) (boot_cores cores : List Core) (r : Result Unit0)
      → load ports.viper none ≡ ok boot_cfg
      → build_logger ports.logs boot_cfg.log w ≡ (ok boot_cores, u)
      → load ports.viper (agent_settings (metadata boot_cfg u)) ≡ ok cfg
      → build_logger ports.logs cfg.log (ports.load_metadata boot_cfg.iso u).1 ≡ (ok cores, v)
      → start ports goos cfg (metadata boot_cfg u) v ≡ (r, w')
      → run ports goos w ≡ (r, ports.cancel (ports.sync w'))
  unfolding run
  run_begins w u v w' boot_cfg cfg boot_cores cores r loaded logged read built started =
      bind-wrapped "loading bootstrap config: " (lift (load ports.viper none))
        (λ boot_cfg.
          wrapped "building bootstrap logger: " (build_logger ports.logs boot_cfg.log) >>= λ logger.
          deferred ports.cancel (configure ports goos boot_cfg))
        boot_cfg w w (ap (λ r. (r, w)) loaded)
      ∙ bind-wrapped "building bootstrap logger: " (build_logger ports.logs boot_cfg.log)
          (λ logger. deferred ports.cancel (configure ports goos boot_cfg)) boot_cores w u logged
      ∙ ap (λ p. (p.0, ports.cancel p.1))
          (configure_begins boot_cfg cfg cores u v w' r read built started)
