-- ===== src/Agent/Start/Laws.antt =====
-- How the start of the agent in cmd/agent/main.go ends.
use mathlib.Core.Path.{subst}
use pfsense_agent.Base.{
  String, ◌<>◌, ◌≡◌, sym, ap, ◌∙◌, none, Result, ok, Io, Unit0, wrapped, lift, ◌>>=◌,
}
use pfsense_agent.Base.Results.Succeeds.{wrap_error_ok, bind_result_ok}
use pfsense_agent.IsoConfig.{IsoMetadata, agent_settings}
use pfsense_agent.Config.{Config, load}
use pfsense_agent.Nats.{connect, cmd_subject}
use pfsense_agent.Dispatcher.{Goos}
use pfsense_agent.Agent.Identity.{Identity, resolve_identity}
use pfsense_agent.Agent.Start.{
  Ports, build_logger, deferred, or_none, provision_on, serve, connect_and_serve, start, configure,
  run,
}

module _ {W : Type 0} (ports : Ports W) (goos : Goos) where
  -- The subscription that the agent serves, with the error of `Subscribe`, in the state in which NATS has accepted its connection.
  abbrev pub subscribed : Identity → W → Result Unit0 × W
  subscribed id =
      wrapped ("subscribing to " <> (cmd_subject id.agent_uuid <> ": "))
        (ports.subscribe (cmd_subject id.agent_uuid))

  abbrev pub connected : Config → Identity → W → Result Unit0 × W
  connected cfg id t = connect ports.nats_connect cfg.nats id.agent_uuid id.agent_api_key none t

  serve_ok :
      (cfg : Config) (id : Identity) (t w : W)
      → serve ports goos cfg id t ≡ (ok tt, w)
      → ((subscribed id t).0 ≡ ok tt)
        × (w ≡ ports.cancel (ports.wait (ports.start_publisher cfg id (subscribed id t).1)))
  unfolding serve
  serve_ok cfg id t w e =
      let (u, accepted, rest) =
        bind_result_ok (wrapped "subscribing to NATS cmd subject: " (subscribed id) t) _ tt w e in
      (
        wrap_error_ok "subscribing to NATS cmd subject: " (subscribed id t).0 tt accepted,
        sym (ap (λ p. p.1) rest),
      )

  deferred_ok :
      {A : Type 0} (last : W → W) (m : Io W A) (a : A) (t w : W)
      → deferred last m t ≡ (ok a, w)
      → (v : W) × (m t ≡ (ok a, v)) × (w ≡ last v)
  deferred_ok last m a t w e =
      ((m t).1, ap (λ r. (r, (m t).1)) (ap (λ p. p.0) e), sym (ap (λ p. p.1) e))

  -- The state in which the agent connects, with its boot provisioning done.
  abbrev pub provisioned : Config → IsoMetadata → W → W
  provisioned cfg iso u = provision_on ports goos cfg iso (resolve_identity cfg.nats iso) u

  connect_and_serve_ok :
      (cfg : Config) (iso : IsoMetadata) (id : Identity) (u w : W)
      → connect_and_serve ports goos cfg iso id u ≡ (ok tt, w)
      → ((connected cfg id (provision_on ports goos cfg iso id u)).0 ≡ ok tt)
        × ((subscribed id (connected cfg id (provision_on ports goos cfg iso id u)).1).0 ≡ ok tt)
        × (w
            ≡ ports.drain (
                ports.cancel (
                  ports.wait (
                    ports.start_publisher cfg id
                      (subscribed id
                        (connected cfg id (provision_on ports goos cfg iso id u)).1).1))))
  unfolding connect_and_serve
  connect_and_serve_ok cfg iso id u w e =
      let t = provision_on ports goos cfg iso id u in
      let (v, reached, rest) =
        bind_result_ok (wrapped "NATS connection failed: " (connected cfg id) t)
          (λ _. deferred ports.drain (serve ports goos cfg id)) tt w e in
      let (s, served, last) =
        deferred_ok ports.drain (serve ports goos cfg id) tt (connected cfg id t).1 w rest in
      let (accepted, ended) = serve_ok cfg id (connected cfg id t).1 s served in
      (
        wrap_error_ok "NATS connection failed: " (connected cfg id t).0 tt reached,
        accepted,
        last ∙ ap ports.drain ended,
      )

  -- What an agent that ended without an error has done, with a configuration and metadata: its server
  -- took the resolved identity after the provisioning, the subscription was accepted, the publisher
  -- was started, and after the signal everything was closed in the opposite order.
  abbrev pub HasServed : Config → IsoMetadata → W → Type 0
  HasServed cfg iso w =
      (u : W) × ((connected cfg (resolve_identity cfg.nats iso) (provisioned cfg iso u)).0 ≡ ok tt)
      × ((subscribed (resolve_identity cfg.nats iso)
            (connected cfg (resolve_identity cfg.nats iso) (provisioned cfg iso u)).1).0
          ≡ ok tt)
      × (w
          ≡ ports.cancel (
              ports.sync (
                ports.close_services (
                  ports.drain (
                    ports.cancel (
                      ports.wait (
                        ports.start_publisher cfg (resolve_identity cfg.nats iso)
                          (subscribed (resolve_identity cfg.nats iso)
                            (connected cfg (resolve_identity cfg.nats iso)
                              (provisioned cfg iso u)).1).1)))))))

  start_ok :
      (cfg : Config) (iso : IsoMetadata) (u w : W)
      → start ports goos cfg iso u ≡ (ok tt, w)
      → HasServed cfg iso (ports.cancel (ports.sync w))
  unfolding start
  start_ok cfg iso u w e =
      let (s, served, last) =
        deferred_ok ports.close_services
          (connect_and_serve ports goos cfg iso (resolve_identity cfg.nats iso)) tt
          (ports.open_services u) w e in
      let (reached, accepted, ended) =
        connect_and_serve_ok cfg iso (resolve_identity cfg.nats iso) (ports.open_services u) s
          served in
      (
        ports.open_services u,
        reached,
        accepted,
        ap (λ v. ports.cancel (ports.sync v)) (last ∙ ap ports.close_services ended),
      )

  configure_ok :
      (boot_cfg : Config) (u w : W)
      → configure ports goos boot_cfg u ≡ (ok tt, w)
      → (cfg : Config) × (load ports.viper
            (agent_settings (or_none (ports.load_metadata boot_cfg.iso u).0))
          ≡ ok cfg)
        × HasServed cfg (or_none (ports.load_metadata boot_cfg.iso u).0) (ports.cancel w)
  unfolding configure
  configure_ok boot_cfg u w e =
      let iso = or_none (ports.load_metadata boot_cfg.iso u).0 in
      let v = (ports.load_metadata boot_cfg.iso u).1 in
      let prefix : String = "building config from config-drive metadata: " in
      let (cfg, loaded, rest) =
        bind_result_ok (wrapped prefix (lift (load ports.viper (agent_settings iso))) v)
          (λ cfg. wrapped "building logger: " (build_logger ports.logs cfg.log) >>= λ logger.
            deferred ports.sync (start ports goos cfg iso))
          tt w e in
      let (logger, logged, rest') =
        bind_result_ok (wrapped "building logger: " (build_logger ports.logs cfg.log) v)
          (λ logger. deferred ports.sync (start ports goos cfg iso)) tt w rest in
      let logged_in = (wrapped "building logger: " (build_logger ports.logs cfg.log) v).1 in
      let (s, started, last) =
        deferred_ok ports.sync (start ports goos cfg iso) tt logged_in w rest' in
      (
        cfg,
        wrap_error_ok prefix (load ports.viper (agent_settings iso)) cfg loaded,
        subst (λ v. HasServed cfg iso (ports.cancel v)) (sym last)
            (start_ok cfg iso logged_in s started),
      )

  -- An agent that ends without an error has served: the configuration was read under the settings of the
  -- metadata, or without any if the metadata could not be resolved; the server took the identity that
  -- both give, after the boot provisioning; the subscription to the agent's command subject was
  -- accepted before the publisher was started; and after the signal, the connection was
  -- drained before the service manager was closed and the log was flushed.
  pub run_ok :
      (w w' : W)
      → run ports goos w ≡ (ok tt, w')
      → (boot_cfg : Config) × (u : W) × (cfg : Config) × (load ports.viper none ≡ ok boot_cfg)
        × (load ports.viper (agent_settings (or_none (ports.load_metadata boot_cfg.iso u).0))
            ≡ ok cfg)
        × HasServed cfg (or_none (ports.load_metadata boot_cfg.iso u).0) w'
  unfolding run
  run_ok w w' e =
      let prefix : String = "loading bootstrap config: " in
      let (boot_cfg, loaded, rest) =
        bind_result_ok (wrapped prefix (lift (load ports.viper none)) w)
          (λ boot_cfg.
            wrapped "building bootstrap logger: " (build_logger ports.logs boot_cfg.log)
            >>= λ logger. deferred ports.cancel (configure ports goos boot_cfg))
          tt w' e in
      let (logger, logged, rest') =
        bind_result_ok
          (wrapped "building bootstrap logger: " (build_logger ports.logs boot_cfg.log) w)
          (λ logger. deferred ports.cancel (configure ports goos boot_cfg)) tt w' rest in
      let u = (wrapped "building bootstrap logger: " (build_logger ports.logs boot_cfg.log) w).1 in
      let (s, configured, last) =
        deferred_ok ports.cancel (configure ports goos boot_cfg) tt u w' rest' in
      let (cfg, read, served) = configure_ok boot_cfg u s configured in
      (
        boot_cfg,
        u,
        cfg,
        wrap_error_ok prefix (load ports.viper none) boot_cfg loaded,
        read,
        subst (HasServed cfg (or_none (ports.load_metadata boot_cfg.iso u).0)) (sym last) served,
      )
