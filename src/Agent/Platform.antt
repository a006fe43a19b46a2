-- ===== src/Agent/Platform.antt =====
-- `newServiceManager` of cmd/agent/platform_linux.go, platform_freebsd.go and platform_windows.go.
use pfsense_agent.Base.{String, Bool, false, Option, none, some, ok, ◌≡◌, refl, ◌⊎◌, inl, inr}
use pfsense_agent.Services.{Manager, ServiceAction, ActionResult}
use pfsense_agent.Services.Linux.{Bus, list, get, perform, ensure_service_suffix}
use pfsense_agent.Services.Linux.Laws.{was_done, perform_reports}
use pfsense_agent.Services.Unsupported.{freebsd_manager, windows_manager}
use pfsense_agent.Dispatcher.{Goos, linux, windows, freebsd}

module _ {W : Type 0} where
  -- The manager of services/linux.go, with the connection if there is one.
  abbrev pub linux_manager : Option (Bus W) → Manager W
  linux_manager bus = record { list = list bus; get = get bus; perform = perform bus }

  -- The manager and the cleanup that the agent defers; `close` closes the connection.
  unfoldable pub new_service_manager : Goos → Option (Bus W) → (W → W) → Manager W × (W → W)
  unfolding freebsd_manager windows_manager
  new_service_manager linux none close = (linux_manager none, λ w. w)
  new_service_manager linux (some bus) close = (linux_manager (some bus), close)
  new_service_manager freebsd bus close = (freebsd_manager, λ w. w)
  new_service_manager windows bus close = (windows_manager, λ w. w)

  -- Whether systemd does what is asked.
  abbrev pub is_done : Goos → Option (Bus W) → ServiceAction → String → W → Bool
  is_done linux (some bus) a name w = was_done bus a (ensure_service_suffix name) w
  is_done _ _ a name w = false

  -- On every platform, an action on a service always gives a report of that action on the service that
  -- was named, or on its unit, and the report says success exactly if the platform is Linux, its
  -- systemd can be reached, and systemd did it.
  pub new_service_manager_reports :
      (goos : Goos) (bus : Option (Bus W)) (close : W → W) (a : ServiceAction) (name : String)
      (w : W)
      → (r : ActionResult) × (((new_service_manager goos bus close).0.perform a name w).0 ≡ ok r)
        × (r.action ≡ a)
        × ((r.service ≡ name) ⊎ (r.service ≡ ensure_service_suffix name))
        × (r.success ≡ is_done goos bus a name w)
  unfolding new_service_manager perform freebsd_manager windows_manager
  new_service_manager_reports linux none close a name w = (_, refl, refl, inl refl, refl)
  new_service_manager_reports linux (some bus) close a name w =
      let (r, e, report) = perform_reports bus a name w in (r, e, report.1, inr report.0, report.2)
  new_service_manager_reports freebsd bus close a name w = (_, refl, refl, inl refl, refl)
  new_service_manager_reports windows bus close a name w = (_, refl, refl, inl refl, refl)
