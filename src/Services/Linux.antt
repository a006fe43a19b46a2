-- ===== src/Services/Linux.antt =====
-- internal/modules/services/linux.go: services over systemd's D-Bus, which is a parameter; without a
-- connection every operation says so.
pub mod Laws
use pfsense_agent.Base.{
  ℕ, String, ◌<>◌, Bool, true, false, Option, none, some, List, [], ◌∷◌, ◌++◌, Result, ok, err,
  Error, plain, wrap, message, Io, wrap_error, str_eq, if◌then◌else◌, has_infix, has_suffix, Unit0,
}
use pfsense_agent.Services.{
  ServiceState, active, inactive, failed, unknown, ServiceAction, start, stop, restart, enable,
  disable, reload, ServiceInfo, ActionResult,
}

-- `dbus.UnitStatus`
pub record Unit1 : Type 0 where
  pub name : String
  pub description : String
  pub active_state : String
  pub sub_state : String

-- The calls of the D-Bus connection. A job's call gives the error of starting it, or else the result
-- that it ends with.
pub record Bus (W : Type 0) : Type 0 where
  pub list_units : Io W (List Unit1)
  pub list_units_by_name : String → Io W (List Unit1)
  pub start_unit : String → Io W String
  pub stop_unit : String → Io W String
  pub restart_unit : String → Io W String
  pub reload_unit : String → Io W String
  pub enable_unit_file : String → Io W Unit0
  pub disable_unit_file : String → Io W Unit0
  pub daemon_reload : W → Option Error × W

unfoldable pub ensure_service_suffix : String → String
unfolding has_infix
ensure_service_suffix name = if has_infix name "." then name else name <> ".service"

abbrev state_of : String → ServiceState
state_of s =
    if str_eq s "active"
    then active
    else if str_eq s "inactive"
    then inactive
    else if str_eq s "failed"
    then failed
    else unknown

abbrev pub info_of : Unit1 → ServiceInfo
info_of u = record {
  name = u.name;
  description = u.description;
  state = state_of u.active_state;
  sub_state = u.sub_state;
  enabled = false;
  pid = 0;
  since = 0;
}

services_from : List Unit1 → List ServiceInfo → List ServiceInfo
unfolding has_suffix
services_from [] services = services
services_from (u ∷ units) services =
    services_from units
      (if has_suffix u.name ".service" then services ++ info_of u ∷ [] else services)

abbrev pub fail_result : String → ServiceAction → Error → ActionResult
fail_result name a e = record { service = name; action = a; success = false; message = message e }

abbrev pub past_tense : ServiceAction → String
past_tense start = "started"
past_tense stop = "stopped"
past_tense restart = "restarted"
past_tense enable = "enabled"
past_tense disable = "disabled"
past_tense reload = "reloaded"

abbrev pub verb : ServiceAction → String
verb start = "start"
verb stop = "stop"
verb restart = "restart"
verb enable = "enable"
verb disable = "disable"
verb reload = "reload"

abbrev pub done_result : String → ServiceAction → ActionResult
done_result name a = record {
  service = name;
  action = a;
  success = true;
  message = "Service " <> (name <> (" " <> (past_tense a <> " successfully.")));
}

abbrev no_bus : Error
no_bus = plain "systemd D-Bus is not available"

module _ {W : Type 0} where
  list_on : Result (List Unit1) × W → Result (List ServiceInfo) × W
  unfolding services_from
  list_on (err e, w) = (err (wrap "listing systemd units: " e ""), w)
  list_on (ok units, w) = (ok (services_from units []), w)

  unfoldable pub list : Option (Bus W) → Io W (List ServiceInfo)
  unfolding list_on
  list none w = (err no_bus, w)
  list (some bus) w = list_on (bus.list_units w)

  get_on : String → Result (List Unit1) × W → Result ServiceInfo × W
  get_on name (err e, w) = (err (wrap ("querying unit " <> (name <> ": ")) e ""), w)
  get_on name (ok [], w) = (err (plain ("unit not found: " <> name)), w)
  get_on name (ok (u ∷ units), w) = (ok (info_of u), w)

  unfoldable pub get : Option (Bus W) → String → Io W ServiceInfo
  unfolding get_on ensure_service_suffix
  get none name w = (err no_bus, w)
  get (some bus) name w =
      get_on (ensure_service_suffix name) (bus.list_units_by_name (ensure_service_suffix name) w)

  -- `Start`, `Stop`, `Restart` and `Reload`, once their job has ended.
  unfoldable pub after_job : String → ServiceAction → Result String × W → ActionResult × W
  after_job name a (err e, w) = (fail_result name a (wrap (verb a <> " failed: ") e ""), w)
  after_job name a (ok result, w) = (
    if str_eq result "done"
        then done_result name a
        else fail_result name a (plain ("job result: " <> result)),
    w,
  )

  -- `Enable` and `Disable`: systemd is reloaded, and a failure of that is logged only.
  unfoldable pub after_files : Bus W → String → ServiceAction → Result Unit0 × W → ActionResult × W
  after_files bus name a (err e, w) = (fail_result name a (wrap (verb a <> " failed: ") e ""), w)
  after_files bus name a (ok _, w) = (done_result name a, (bus.daemon_reload w).1)

  perform_on : Bus W → ServiceAction → String → W → ActionResult × W
  unfolding after_job after_files
  perform_on bus start name w = after_job name start (bus.start_unit name w)
  perform_on bus stop name w = after_job name stop (bus.stop_unit name w)
  perform_on bus restart name w = after_job name restart (bus.restart_unit name w)
  perform_on bus reload name w = after_job name reload (bus.reload_unit name w)
  perform_on bus enable name w = after_files bus name enable (bus.enable_unit_file name w)
  perform_on bus disable name w = after_files bus name disable (bus.disable_unit_file name w)

  unfoldable pub perform : Option (Bus W) → ServiceAction → String → Io W ActionResult
  unfolding perform_on ensure_service_suffix
  perform none a name w = (ok (fail_result name a no_bus), w)
  perform (some bus) a name w =
      let (r, w') = perform_on bus a (ensure_service_suffix name) w in (ok r, w')
