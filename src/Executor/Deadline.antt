-- ===== src/Executor/Deadline.antt =====
-- A command of internal/executor/executor.go that outlasts the timeout.
use pfsense_agent.Base.{String, ◌<>◌, ◌≡◌, refl, true, none, some, List, plain}
use pfsense_agent.Executor.{
  duration_text, World, Executor, RunError, invocation, execute_with_stdin, execute, failure_of,
}

module _ {S : Type 0} (e : Executor S) where
  -- A command that fails after its deadline is reported by the deadline, not by its exit.
  pub execute_times_out :
      (command : String) (args : List String) (w : World S) (x : RunError)
      → (e.start (invocation e none command args) w.host).0.failure ≡ some x
      → (e.start (invocation e none command args) w.host).0.deadline_exceeded ≡ true
      → (execute e command args w).0.failure
        ≡ some
            (plain ("command timed out after " <> (duration_text e.timeout_s <> (": " <> command))))
  unfolding execute execute_with_stdin failure_of
  execute_times_out command args w x failed late = rw (failed, late) refl
