-- ===== src/Pfsense/Stub.antt =====
-- internal/modules/pfsense/pfsense_stub.go: the manager of the platforms other than pfSense.
use pfsense_agent.Base.{String, false, none, Error, plain, throw, pure}
use pfsense_agent.Pfsense.{Manager, SetPasswordResult}

abbrev not_supported : Error
not_supported = plain "pfSense operations are only supported on pfSense/FreeBSD"

abbrev unset : String → SetPasswordResult
unset username = record {
  username = username;
  success = false;
  message = "pfSense operations are only supported on pfSense/FreeBSD";
}

-- Reverting succeeds, and there is nothing to apply at boot.
unfoldable pub stub_manager : {W : Type 0} → Manager W
stub_manager = record {
  set_password = λ username password. pure (unset username);
  set_default_user_password = λ password. pure (unset "");
  apply_boot_network_config = λ cards. pure none;
  revert = λ snapshot. pure tt;
  list_firewall_rules = throw not_supported;
  create_firewall_rule = λ input. throw not_supported;
  delete_firewall_rule = λ tracker. throw not_supported;
  list_port_forwards = throw not_supported;
  create_port_forward = λ input. throw not_supported;
  delete_port_forward = λ tracker. throw not_supported;
  list_dhcp_leases = throw not_supported;
}
