-- ===== src/Agent/Start/Fails.antt =====
-- The start of the agent in cmd/agent/main.go without a server that takes it.
use pfsense_agent.Base.{◌≡◌, ap, none, List, ok, err, Error, wrap}
use pfsense_agent.Base.Results.Succeeds.{bind-wrapped_err}
use pfsense_agent.IsoConfig.{IsoMetadata, agent_settings}
use pfsense_agent.Config.{Config, load}
use pfsense_agent.Dispatcher.{Goos}
use pfsense_agent.Agent.Identity.{resolve_identity}
use pfsense_agent.Agent.Start.{
  Core, Ports, deferred, build_logger, provision_on, serve, connect_and_serve, start, run,
}
use pfsense_agent.Agent.Start.Begins.{metadata, run_begins}
use pfsense_agent.Agent.Start.Laws.{connected, provisioned}

module _ {W : Type 0} (ports : Ports W) (goos : Goos) where
  start_refused :
      (cfg : Config) (iso : IsoMetadata) (v t : W) (e : Error)
      → connected ports goos cfg
          (resolve_identity cfg.nats iso)
          (provisioned ports goos cfg iso (ports.open_services v))
        ≡ (err e, t)
      → start ports goos cfg iso v
        ≡ (err (wrap "NATS connection failed: " e ""), ports.close_services t)
  unfolding start connect_and_serve
  start_refused cfg iso v t e refused =
      ap (λ p. (p.0, ports.close_services p.1))
        (bind-wrapped_err "NATS connection failed: "
          (connected ports goos cfg (resolve_identity cfg.nats iso))
          (λ _. deferred ports.drain (serve ports goos cfg (resolve_identity cfg.nats iso))) e
          (provision_on ports goos cfg iso (resolve_identity cfg.nats iso) (ports.open_services v))
          t refused)

  -- An agent whose server cannot be reached ends with that error: nothing is subscribed or
  -- published, and the service manager is closed, the log flushed and the context cancelled.
  pub run_refused :
      (w u v t : W) (boot_cfg cfg : Config) (boot_cores cores : List Core) (e : Error)
      → load ports.viper none ≡ ok boot_cfg
      → build_logger ports.logs boot_cfg.log w ≡ (ok boot_cores, u)
      → load ports.viper (agent_settings (metadata ports goos boot_cfg u)) ≡ ok cfg
      → build_logger ports.logs cfg.log (ports.load_metadata boot_cfg.iso u).1 ≡ (ok cores, v)
      → connected ports goos cfg
          (resolve_identity cfg.nats (metadata ports goos boot_cfg u))
          (provisioned ports goos cfg (metadata ports goos boot_cfg u) (ports.open_services v))
        ≡ (err e, t)
      → run ports goos w ≡ (
        err (wrap "NATS connection failed: " e ""),
        ports.cancel (ports.sync (ports.close_services t)),
      )
  run_refused w u v t boot_cfg cfg boot_cores cores e loaded logged read built refused =
      run_begins ports goos w u v (ports.close_services t) boot_cfg cfg boot_cores cores
        (err (wrap "NATS connection failed: " e "")) loaded logged read built
        (start_refused cfg (metadata ports goos boot_cfg u) v t e refused)
