-- ===== src/Services/Unsupported.antt =====
-- internal/modules/services/freebsd.go and windows.go: managers that report every operation as not
-- supported.
use pfsense_agent.Base.{String, false, plain, throw, pure}
use pfsense_agent.Services.{Manager, ServiceAction, ActionResult}

abbrev unsupported : String → ServiceAction → String → ActionResult
unsupported said action name = record {
  service = name;
  action = action;
  success = false;
  message = said;
}

abbrev manager : {W : Type 0} → String → Manager W
manager said = record {
  list = throw (plain said);
  get = λ name. throw (plain said);
  perform = λ action name. pure (unsupported said action name);
}

unfoldable pub freebsd_manager : {W : Type 0} → Manager W
freebsd_manager = manager "service management is not yet supported on pfSense"

unfoldable pub windows_manager : {W : Type 0} → Manager W
windows_manager = manager "service management is not yet supported on Windows"
