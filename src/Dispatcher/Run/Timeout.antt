-- ===== src/Dispatcher/Run/Timeout.antt =====
-- `system.update` of internal/dispatcher/dispatcher.go over the executor of internal/executor/executor.go.
use pfsense_agent.Base.{
  String, ◌≡◌, refl, true, false, none, some, List, ok, err, plain, str_eq, decimal,
}
use pfsense_agent.Executor.{Invocation, Completion, World, RunError, new, invocation, execute}
use pfsense_agent.Executor.Deadline.{execute_times_out}
use pfsense_agent.Dispatcher.{Dispatcher}
use pfsense_agent.Dispatcher.OsRelease.{debian_distro}
use pfsense_agent.Dispatcher.Run.{apt_get, after_update, apt_update, update}

module _ {S : Type 0} (start : Invocation → S → Completion × S) (d : Dispatcher (World S))
    (runs : (command : String) (args : List String) (w : World S)
      → d.ports.execute command args w ≡ execute (new start) command args w) where
  -- A step of apt-get, as the executor has it run.
  abbrev pub step : String → World S → Completion × S
  step name w = start (invocation (new start) none "apt-get" (apt_get name)) w.host

  -- The world in which the upgrade begins, with the update of the package lists done.
  abbrev pub updated : World S → World S
  updated w = (d.ports.execute "apt-get" (apt_get "update") w).1

  -- An upgrade that takes longer than the 30 seconds of the executor fails: once the release of the
  -- system is read as Debian's and the package lists are updated, `system.update` reports the timeout.
  pub update_times_out :
      (os_release : String) (w v : World S) (x : RunError)
      → d.ports.read_os_release w ≡ (ok os_release, v)
      → str_eq (debian_distro os_release) "" ≡ false
      → (d.ports.execute "apt-get" (apt_get "update") v).0.failure ≡ none
      → (step "upgrade" (updated v)).0.failure ≡ some x
      → (step "upgrade" (updated v)).0.deadline_exceeded ≡ true
      → (update d w).0 ≡ err (plain "command timed out after 30s: apt-get")
  unfolding update apt_update after_update decimal
  update_times_out os_release w v x read debian fetched failed late =
      let timed_out =
        execute_times_out (new start) "apt-get" (apt_get "upgrade") (updated v) x failed late in
      rw (read, debian, fetched, runs "apt-get" (apt_get "upgrade") (updated v), timed_out) refl
