-- ===== src/Dispatcher/Run/Depends.antt =====
-- What `run` of internal/dispatcher/dispatcher.go does not look at.
use pfsense_agent.Base.{String, List, ◌≡◌, refl, Option, none, some}
use pfsense_agent.Json.{Json}
use pfsense_agent.Dispatcher.{Dispatcher}
use pfsense_agent.Dispatcher.Operation.{Operation, switch, vm_reboot, services_action}
use pfsense_agent.Dispatcher.Params.{Params}
use pfsense_agent.Dispatcher.Run.{
  run, run_found, run_case, reboot, update, set_interval, delete_rule, delete_forward, create_rule,
  create_forward, run_exec, run_tool,
}

module _ {W : Type 0} (d : Dispatcher W) (l : List String) where
  run_case_same :
      (c : Operation) (p : Params) (raw : Option Json) (w : W)
      → run_case (record d { allowed_ops = l }) c p raw w ≡ run_case d c p raw w
  unfolding run_case update set_interval delete_rule delete_forward create_rule create_forward
      run_exec run_tool reboot
  run_case_same vm_reboot p raw w = refl
  run_case_same (services_action a) p raw w = refl
  run_case_same _ p raw w = refl

  run_found_same :
      (op : String) (c : Option Operation) (p : Params) (raw : Option Json) (w : W)
      → run_found (record d { allowed_ops = l }) op c p raw w ≡ run_found d op c p raw w
  unfolding run_found
  run_found_same op none p raw w = refl
  run_found_same op (some c) p raw w = run_case_same c p raw w

  -- Once a command is admitted, the allowed operations make no difference.
  pub run_same :
      (op : String) (p : Params) (raw : Option Json) (w : W)
      → run (record d { allowed_ops = l }) op p raw w ≡ run d op p raw w
  unfolding run
  run_same op p raw w = run_found_same op (switch op) p raw w
