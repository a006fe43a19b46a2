-- ===== src/Executor.antt =====
-- internal/executor/executor.go. Starting a process and waiting for it under a deadline is os/exec,
-- which is a parameter; the audit log is part of the world.
pub mod Audit
pub mod Deadline
use pfsense_agent.Base.{
  ltb, ◌/◌, ◌%◌, ℕ, suc, String, ◌<>◌, Bool, true, false, Option, none, some, List, [], ◌∷◌, ◌++◌,
  if◌then◌else◌, Error, plain, wrap, decimal,
}
use pfsense_agent.Base.Int.{ℤ, pos, negsuc, show_int}

-- A command as it is handed to os/exec. `none` is a nil stdin.
pub record Invocation : Type 0 where
  pub command : String
  pub args : List String
  pub stdin : Option String
  pub timeout_s : ℕ

-- How `cmd.Run` fails: the process ended with a code, or it was not run at all.
pub data RunError : Type 0 where
  exited : (code : ℤ) → (text : String) → RunError
  not_run : Error → RunError

pub record Completion : Type 0 where
  pub stdout : String
  pub stderr : String
  pub failure : Option RunError
  pub deadline_exceeded : Bool

pub record AuditEntry : Type 0 where
  pub command : String
  pub args : List String
  pub exit_code : ℤ
  pub success : Bool

-- The host, and what the executor has logged on it.
pub record World (S : Type 0) : Type 0 where
  pub host : S
  pub audit : List AuditEntry

-- The timeout is a whole number of seconds.
pub record Executor (S : Type 0) : Type 0 where
  pub timeout_s : ℕ
  pub start : Invocation → S → Completion × S

-- `New`, with `defaultTimeout`, and `NewWithTimeout`.
abbrev default_timeout_s : ℕ
default_timeout_s = 30

abbrev pub new_with_timeout : {S : Type 0} → (Invocation → S → Completion × S) → ℕ → Executor S
new_with_timeout start timeout_s = record { timeout_s = timeout_s; start = start }

abbrev pub new : {S : Type 0} → (Invocation → S → Completion × S) → Executor S
new start = new_with_timeout start default_timeout_s

pub record Execution : Type 0 where
  pub stdout : String
  pub stderr : String
  pub failure : Option Error

abbrev exit_code : Option RunError → ℤ
exit_code none = pos 0
exit_code (some (exited code text)) = code
exit_code (some (not_run e)) = negsuc 0

abbrev run_error : RunError → Error
run_error (exited code text) = plain text
run_error (not_run e) = e

abbrev pub is_success : Option RunError → Bool
is_success none = true
is_success (some e) = false

abbrev pub entry_of : String → List String → Completion → AuditEntry
entry_of command args c = record {
  command = command;
  args = args;
  exit_code = exit_code c.failure;
  success = is_success c.failure;
}

-- `Duration.String` of a whole number of seconds.
abbrev pub duration_text : ℕ → String
duration_text s =
    if ltb s 60
    then decimal s <> "s"
    else if ltb s 3600
    then decimal (s / 60) <> ("m" <> (decimal (s % 60) <> "s"))
    else decimal (s / 3600)
      <> ("h" <> (decimal (s % 3600 / 60) <> ("m" <> (decimal (s % 60) <> "s"))))

failure_of : ℕ → String → Completion → Option RunError → Option Error
unfolding show_int
failure_of timeout_s command c none = none
failure_of timeout_s command c (some e) = some (
    if c.deadline_exceeded
    then plain ("command timed out after " <> (duration_text timeout_s <> (": " <> command)))
    else wrap ("command failed (exit " <> (show_int (exit_code (some e)) <> "): ")) (run_error e)
        "")

module _ {S : Type 0} (e : Executor S) where
  abbrev pub invocation : Option String → String → List String → Invocation
  invocation stdin command args = record {
    command = command;
    args = args;
    stdin = stdin;
    timeout_s = e.timeout_s;
  }

  unfoldable pub execute_with_stdin :
      Option String → String → List String → World S → Execution × World S
  unfolding failure_of
  execute_with_stdin stdin command args w =
      let (c, host) = e.start (invocation stdin command args) w.host in
      (
        record {
          stdout = c.stdout;
          stderr = c.stderr;
          failure = failure_of e.timeout_s command c c.failure;
        },
        record { host = host; audit = w.audit ++ entry_of command args c ∷ [] },
      )

  unfoldable pub execute : String → List String → World S → Execution × World S
  unfolding execute_with_stdin
  execute command args w = execute_with_stdin none command args w
