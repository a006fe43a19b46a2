-- ===== src/Executor/Audit.antt =====
-- The audit log of internal/executor/executor.go.
use pfsense_agent.Base.{ℕ, String, ◌≡◌, refl, ◌↔◌, true, Option, none, some, List, [], ◌∷◌, ◌++◌}
use pfsense_agent.Executor.{
  RunError, Completion, AuditEntry, World, Executor, is_success, invocation, failure_of,
  execute_with_stdin,
}

success_iff :
    (timeout_s : ℕ) (command : String) (c : Completion) (o : Option RunError)
    → (is_success o ≡ true) ↔ (failure_of timeout_s command c o ≡ none)
unfolding failure_of
success_iff timeout_s command c none = (λ h. refl, λ h. refl)
success_iff timeout_s command c (some x) = (λ h. cc, λ h. cc)

module _ {S : Type 0} (e : Executor S) where
  -- A command leaves one entry in the log, whatever its outcome, with its name and arguments; the entry
  -- says success exactly when no error is returned.
  pub execute_with_stdin_audit :
      (stdin : Option String) (command : String) (args : List String) (w : World S)
      → (entry : AuditEntry) × ((execute_with_stdin e stdin command args w).1.audit
          ≡ w.audit ++ entry ∷ [])
        × (entry.command ≡ command)
        × (entry.args ≡ args)
        × ((entry.success ≡ true) ↔ ((execute_with_stdin e stdin command args w).0.failure ≡ none))
  unfolding execute_with_stdin
  execute_with_stdin_audit stdin command args w = (
    _,
    refl,
    refl,
    refl,
    success_iff e.timeout_s command (e.start (invocation e stdin command args) w.host).0 _,
  )

  -- What is piped to a command is not written to the log: two runs from equal logs that differ in
  -- their stdin, and whose processes end alike, leave equal logs.
  pub execute_with_stdin_hides :
      (stdin stdin' : Option String) (command : String) (args : List String) (w w' : World S)
      → w.audit ≡ w'.audit
      → (e.start (invocation e stdin command args) w.host).0
        ≡ (e.start (invocation e stdin' command args) w'.host).0
      → (execute_with_stdin e stdin command args w).1.audit
        ≡ (execute_with_stdin e stdin' command args w').1.audit
  unfolding execute_with_stdin
  execute_with_stdin_hides stdin stdin' command args w w' same_log same_end =
      rw (same_log, same_end)
