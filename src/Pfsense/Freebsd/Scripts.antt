-- ===== src/Pfsense/Freebsd/Scripts.antt =====
-- `runEmbeddedPHP` of internal/modules/pfsense/pfsense_freebsd.go.
use pfsense_agent.Base.{
  String, ◌<>◌, ◌≡◌, refl, ◌⊎◌, inl, inr, Option, some, List, [], ◌∷◌, ◌++◌, Result, ok, err, Error,
  wrap, Unit0, str_eq, if◌then◌else◌, message,
}
use pfsense_agent.Executor.{World, Execution, execute_with_stdin, AuditEntry}
use pfsense_agent.Executor.Audit.{execute_with_stdin_audit}
use pfsense_agent.Pfsense.Freebsd.{Script, script_name, Platform}

abbrev pub php_binary : String
php_binary = "/usr/local/bin/php"

abbrev pub failed_with : Error → Execution
failed_with e = record { stdout = ""; stderr = ""; failure = some e }

module _ {S : Type 0} (host : Platform S) (script : Script) (stdin : Option String)
    (args : List String) where
  abbrev pub script_path : String → String
  script_path dir = dir <> ("/" <> script_name script)

  -- The deferred `os.RemoveAll`.
  abbrev cleaned : String → Execution × World S → Execution × World S
  cleaned dir (e, w) = (e, record w { host = host.remove_all dir w.host })

  run_written : String → Result Unit0 × S → List AuditEntry → Execution × World S
  run_written dir (err e, s) audit =
      (failed_with (wrap "writing script: " e ""), record { host = s; audit = audit })
  run_written dir (ok _, s) audit =
      execute_with_stdin host.executor stdin php_binary ("-f" ∷ script_path dir ∷ args)
        (record { host = s; audit = audit })

  run_in : Result String × S → List AuditEntry → Execution × World S
  unfolding run_written
  run_in (err e, s) audit =
      (failed_with (wrap "creating temp dir: " e ""), record { host = s; audit = audit })
  run_in (ok dir, s) audit =
      cleaned dir
        (run_written dir (host.write_file (script_path dir) (host.script_text script) s) audit)

  unfoldable pub run_embedded_php : World S → Execution × World S
  unfolding run_in
  run_embedded_php w = run_in (host.make_temp_dir w.host) w.audit

  -- The directory that a script was written to is removed last, whether the script was written, ran,
  -- or failed.
  pub run_embedded_php_cleans :
      (w : World S) (dir : String) (s : S)
      → host.make_temp_dir w.host ≡ (ok dir, s)
      → (t : S) × ((run_embedded_php w).1.host ≡ host.remove_all dir t)
  unfolding run_embedded_php
  run_embedded_php_cleans w dir s made = (
    (run_written dir (host.write_file (script_path dir) (host.script_text script) s)
        w.audit).1.host,
    rw made,
  )

  -- A script leaves no entry in the audit log, or one whose arguments are the script's path and the
  -- given ones.
  abbrev pub IsAudited : World S → List AuditEntry → Type 0
  IsAudited w log =
      (log ≡ w.audit)
      ⊎ ((dir : String) × (entry : AuditEntry) × ((host.make_temp_dir w.host).0 ≡ ok dir)
          × (log ≡ w.audit ++ entry ∷ [])
          × (entry.command ≡ php_binary)
          × (entry.args ≡ "-f" ∷ script_path dir ∷ args))

  run_written-IsAudited :
      (w : World S) (dir : String) (r : Result Unit0 × S)
      → (host.make_temp_dir w.host).0 ≡ ok dir
      → IsAudited w (run_written dir r w.audit).1.audit
  unfolding run_written
  run_written-IsAudited w dir (err e, s) made = inl refl
  run_written-IsAudited w dir (ok _, s) made =
      let start =
        execute_with_stdin_audit host.executor stdin php_binary ("-f" ∷ script_path dir ∷ args)
          (record { host = s; audit = w.audit }) in
      inr (dir, start.0, made, start.1, start.2, start.3)

  run_in-IsAudited :
      (w : World S) (r : Result String × S)
      → (host.make_temp_dir w.host).0 ≡ r.0
      → IsAudited w (run_in r w.audit).1.audit
  unfolding run_in
  run_in-IsAudited w (err e, s) made = inl refl
  run_in-IsAudited w (ok dir, s) made =
      run_written-IsAudited w dir (host.write_file (script_path dir) (host.script_text script) s)
        made

  pub run_embedded_php-IsAudited : (w : World S) → IsAudited w (run_embedded_php w).1.audit
  unfolding run_embedded_php
  run_embedded_php-IsAudited w = run_in-IsAudited w (host.make_temp_dir w.host) refl

-- The message of a script that failed: what it printed to stderr, or else the error.
abbrev pub stderr_or : String → Error → String
stderr_or stderr e = if str_eq stderr "" then message e else stderr
