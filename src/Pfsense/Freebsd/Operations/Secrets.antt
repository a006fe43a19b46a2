-- ===== src/Pfsense/Freebsd/Operations/Secrets.antt =====
-- The passwords in internal/modules/pfsense/pfsense_freebsd.go: the audit log, and the reported result.
use pfsense_agent.Base.{
  String, ◌≡◌, refl, inl, inr, true, Option, none, some, [], ◌∷◌, Result, ok, err, Error, arith,
  str_eq, eq_iff, Bool-cases,
}
use pfsense_agent.Executor.{World, Execution}
use pfsense_agent.Pfsense.{SetPasswordResult}
use pfsense_agent.Pfsense.Freebsd.{set_password_php, PasswordOutput, Platform}
use pfsense_agent.Pfsense.Freebsd.Scripts.{run_embedded_php, IsAudited, run_embedded_php-IsAudited}
use pfsense_agent.Pfsense.Freebsd.Operations.{read_password_output, password_result, set_password}

module _ {S : Type 0} (host : Platform S) where
  -- Whatever comes of it, setting a password adds nothing to the audit log, or one entry whose command
  -- is PHP and whose arguments are the script and the user's name: never the password.
  pub set_password-IsAudited :
      (username password : String) (w : World S)
      → IsAudited host set_password_php
          (some password)
          (username ∷ [])
          w
          (set_password host username password w).1.audit
  unfolding set_password
  set_password-IsAudited username password w = elim (Bool-cases (str_eq username "")) [
    | inl absent ↦ rw absent (inl refl)
    | inr named ↦ elim (Bool-cases (str_eq password "")) [
      | inl absent ↦ rw (named, absent) (inl refl)
      | inr given ↦
          rw (named, given)
            (run_embedded_php-IsAudited host set_password_php (some password) (username ∷ []) w)
    ]
  ]

  -- What a script must have printed for a success to be reported.
  abbrev pub SaidOk : Execution → Type 0
  SaidOk run =
      (run.failure ≡ none)
      × ((out : PasswordOutput) × (host.codec.read_password run.stdout ≡ ok out)
          × (out.status ≡ "ok"))

  read_password_output_ok :
      (username : String) (named : PasswordOutput → String) (stdout : String)
      (r : Result PasswordOutput) (given : SetPasswordResult)
      → read_password_output username named stdout r ≡ ok given
      → given.success ≡ true
      → (out : PasswordOutput) × (r ≡ ok out) × (out.status ≡ "ok")
  unfolding read_password_output
  read_password_output_ok username named stdout (err e) given h done = cc
  read_password_output_ok username named stdout (ok out) given h done =
      (out, refl, ground (arith, eq_iff out.status "ok"))

  password_result_ok :
      (username : String) (named : PasswordOutput → String) (run : Execution) (o : Option Error)
      (given : SetPasswordResult)
      → run.failure ≡ o
      → password_result host username named run o ≡ ok given
      → given.success ≡ true
      → SaidOk run
  unfolding password_result
  password_result_ok username named run (some e) given f h done = ground arith
  password_result_ok username named run none given f h done =
      (f, read_password_output_ok username named run.stdout _ given h done)

  -- A success is reported only if the script was run, ended without an error, and printed a status `ok`.
  pub set_password_reports :
      (username password : String) (w : World S) (given : SetPasswordResult)
      → (set_password host username password w).0 ≡ ok given
      → given.success ≡ true
      → SaidOk (run_embedded_php host set_password_php (some password) (username ∷ []) w).0
  unfolding set_password
  set_password_reports username password w given h done = elim (Bool-cases (str_eq username "")) [
    | inl absent ↦ ground arith
    | inr named ↦ elim (Bool-cases (str_eq password "")) [
      | inl absent ↦ ground arith
      | inr _ ↦
          password_result_ok username (λ out. username)
            (run_embedded_php host set_password_php (some password) (username ∷ []) w).0 _ given
            refl (ground arith) done
    ]
  ]
