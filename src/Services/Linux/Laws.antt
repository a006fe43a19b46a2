-- ===== src/Services/Linux/Laws.antt =====
-- What internal/modules/services/linux.go reports of an action and of the units.
use pfsense_agent.Base.{
  String, ◌≡◌, refl, inl, inr, Bool, true, false, some, List, [], ◌∷◌, ◌++◌, Result, ok, err,
  str_eq, has_suffix, Unit0, All, All-append, Bool-cases,
}
use pfsense_agent.Services.{
  ServiceAction, start, stop, restart, enable, disable, reload, ServiceInfo, ActionResult,
}
use pfsense_agent.Services.Linux.{
  Unit1, Bus, info_of, services_from, list, list_on, ensure_service_suffix, perform, perform_on,
  after_job, after_files,
}

ok_injective : {A : Type 0} (a b : A) → Path (Result A) (ok a) (ok b) → a ≡ b
ok_injective a b e = cc

abbrev pub IsService : ServiceInfo → Type 0
IsService s = has_suffix s.name ".service" ≡ true

services_from-IsService :
    (units : List Unit1) (services : List ServiceInfo)
    → All IsService services
    → All IsService (services_from units services)
unfolding services_from
services_from-IsService [] services h = h
services_from-IsService (u ∷ units) services h = elim (Bool-cases (has_suffix u.name ".service")) [
  | inl service ↦ rw service (
      services_from-IsService units (services ++ info_of u ∷ [])
        (All-append IsService services (info_of u ∷ []) h (service, tt)))
  | inr other ↦ rw other (services_from-IsService units services h)
]

-- What systemd answered: the result of a job, or whether unit files were changed.
job_done : Result String → Bool
job_done (err e) = false
job_done (ok result) = str_eq result "done"

files_done : Result Unit0 → Bool
files_done (err e) = false
files_done (ok _) = true

-- A result that speaks of an action on a unit, and says whether it was done.
abbrev pub IsReport : String → ServiceAction → Bool → ActionResult → Type 0
IsReport name a done r = (r.service ≡ name) × (r.action ≡ a) × (r.success ≡ done)

module _ {W : Type 0} where
  pub was_done : Bus W → ServiceAction → String → W → Bool
  unfolding job_done files_done
  was_done bus start name w = job_done (bus.start_unit name w).0
  was_done bus stop name w = job_done (bus.stop_unit name w).0
  was_done bus restart name w = job_done (bus.restart_unit name w).0
  was_done bus reload name w = job_done (bus.reload_unit name w).0
  was_done bus enable name w = files_done (bus.enable_unit_file name w).0
  was_done bus disable name w = files_done (bus.disable_unit_file name w).0

  after_job-IsReport :
      (name : String) (a : ServiceAction) (r : Result String × W)
      → IsReport name a (job_done r.0) (after_job name a r).0
  unfolding job_done after_job
  after_job-IsReport name a (err e, w) = (refl, refl, refl)
  after_job-IsReport name a (ok result, w) = elim (Bool-cases (str_eq result "done")) [
    | inl done ↦ rw done (refl, refl, refl)
    | inr other ↦ rw other (refl, refl, refl)
  ]

  after_files-IsReport :
      (bus : Bus W) (name : String) (a : ServiceAction) (r : Result Unit0 × W)
      → IsReport name a (files_done r.0) (after_files bus name a r).0
  unfolding files_done after_files
  after_files-IsReport bus name a (err e, w) = (refl, refl, refl)
  after_files-IsReport bus name a (ok _, w) = (refl, refl, refl)

  perform_on-IsReport :
      (bus : Bus W) (a : ServiceAction) (name : String) (w : W)
      → IsReport name a (was_done bus a name w) (perform_on bus a name w).0
  unfolding perform_on was_done
  perform_on-IsReport bus start name w = after_job-IsReport name start (bus.start_unit name w)
  perform_on-IsReport bus stop name w = after_job-IsReport name stop (bus.stop_unit name w)
  perform_on-IsReport bus restart name w = after_job-IsReport name restart (bus.restart_unit name w)
  perform_on-IsReport bus reload name w = after_job-IsReport name reload (bus.reload_unit name w)
  perform_on-IsReport bus enable name w =
      after_files-IsReport bus name enable (bus.enable_unit_file name w)
  perform_on-IsReport bus disable name w =
      after_files-IsReport bus name disable (bus.disable_unit_file name w)

  -- With a connection to systemd, an action always gives a result, of that action on the unit that the
  -- name stands for, and it says success exactly if systemd's job for that action ended in `done`, or
  -- systemd changed the unit's files.
  pub perform_reports :
      (bus : Bus W) (a : ServiceAction) (name : String) (w : W)
      → (r : ActionResult) × ((perform (some bus) a name w).0 ≡ ok r)
        × IsReport (ensure_service_suffix name) a (was_done bus a (ensure_service_suffix name) w) r
  unfolding perform
  perform_reports bus a name w = (_, refl, perform_on-IsReport bus a (ensure_service_suffix name) w)

  list_on-IsService :
      (r : Result (List Unit1) × W) (services : List ServiceInfo)
      → (list_on r).0 ≡ ok services
      → All IsService services
  unfolding list_on
  list_on-IsService (err e, w) services h = cc
  list_on-IsService (ok units, w) services h =
      rw (← ok_injective (services_from units []) services h) (services_from-IsService units [] tt)

  -- Every unit that is listed is a service, by its name.
  pub list-IsService :
      (bus : Bus W) (w : W) (services : List ServiceInfo)
      → (list (some bus) w).0 ≡ ok services
      → All IsService services
  unfolding list
  list-IsService bus w services h = list_on-IsService (bus.list_units w) services h
