-- ===== src/DiskResize/Linux/Laws.antt =====
-- What a success of internal/modules/diskresize/linux.go rests on, and when something is installed.
use pfsense_agent.Base.{
  String, ◌≡◌, refl, ap, ◌⊎◌, inl, inr, true, false, Option, none, some, List, [], ◌∷◌, Result, ok,
  err, Error, is_missing_tool, str_eq, eq_iff, Unit0, arith, Bool-cases,
}
use pfsense_agent.Base.Results.Succeeds.{wrap_error_ok, bind_result_ok}
use pfsense_agent.DiskResize.Linux.{
  Host, says_nochange, install_package, second_try, after_installed, first_try, run_or_install,
  is_ext, grow_partition, grow_filesystem, grow,
}

module _ {W : Type 0} (host : Host W) where
  -- A run of the tool that ended without an error, or said that there is nothing to change.
  abbrev pub RunsWell : String → List String → Type 0
  RunsWell tool args =
      (w : W) × (((host.execute tool args w).0.failure ≡ none)
        ⊎ (says_nochange (host.execute tool args w).0 ≡ true))

  second_try_ok :
      (tool : String) (args : List String) (w : W) (o : Option Error)
      → (host.execute tool args w).0.failure ≡ o
      → second_try host tool (host.execute tool args w).0 o ≡ ok tt
      → RunsWell tool args
  unfolding second_try
  second_try_ok tool args w none e h = (w, inl e)
  second_try_ok tool args w (some x) e h = (w, inr (ground arith))

  after_installed_ok :
      (tool : String) (args : List String) (r : Result Unit0 × W)
      → (after_installed host tool args r).0 ≡ ok tt
      → RunsWell tool args
  unfolding after_installed
  after_installed_ok tool args (err x, w) h = ground arith
  after_installed_ok tool args (ok _, w) h = second_try_ok tool args w _ refl h

  first_try_ok :
      (tool apt_pkg rhel_pkg : String) (args : List String) (w : W) (o : Option Error) (w' : W)
      → (host.execute tool args w).0.failure ≡ o
      → (first_try host tool apt_pkg rhel_pkg args (host.execute tool args w).0 o w').0 ≡ ok tt
      → RunsWell tool args
  unfolding first_try
  first_try_ok tool apt_pkg rhel_pkg args w none w' e h = (w, inl e)
  first_try_ok tool apt_pkg rhel_pkg args w (some x) w' e h =
      elim (Bool-cases (says_nochange (host.execute tool args w).0)) [
        | inl said ↦ (w, inr said)
        | inr silent ↦ elim (Bool-cases (is_missing_tool x)) [
          | inl missing ↦
              after_installed_ok tool args (install_package host apt_pkg rhel_pkg w')
                (rw (silent, missing) at h)
          | inr present ↦ ground arith
        ]
      ]

  -- A success rests on a run of the tool itself, never on its installation alone: some run of it ended
  -- without an error or said that there is nothing to change.
  pub run_or_install_ok :
      (tool apt_pkg rhel_pkg : String) (args : List String) (w : W)
      → (run_or_install host tool apt_pkg rhel_pkg args w).0 ≡ ok tt
      → RunsWell tool args
  unfolding run_or_install
  run_or_install_ok tool apt_pkg rhel_pkg args w h =
      first_try_ok tool apt_pkg rhel_pkg args w _ _ refl h

  -- Nothing is installed for a tool that is there: if its first run fails, but not for want of the
  -- program, that run is all that is done.
  pub run_or_install_present :
      (tool apt_pkg rhel_pkg : String) (args : List String) (w : W) (x : Error)
      → (host.execute tool args w).0.failure ≡ some x
      → is_missing_tool x ≡ false
      → (run_or_install host tool apt_pkg rhel_pkg args w).1 ≡ (host.execute tool args w).1
  unfolding run_or_install first_try says_nochange
  run_or_install_present tool apt_pkg rhel_pkg args w x failed present =
      elim (Bool-cases (says_nochange (host.execute tool args w).0)) [
        | inl said ↦ rw (failed, said) refl
        | inr silent ↦ rw (failed, silent, present) refl
      ]

  -- The file system's own tool: on the device for the ext family, on the mount point for XFS.
  abbrev pub IsGrown : String → String → String → Type 0
  IsGrown device fstype target =
      ((is_ext host fstype ≡ true) × RunsWell "resize2fs" (device ∷ []))
      ⊎ ((fstype ≡ "xfs") × RunsWell "xfs_growfs" (target ∷ []))

  grow_filesystem_ok :
      (device fstype target : String) (w : W)
      → (grow_filesystem host device fstype target w).0 ≡ ok tt
      → IsGrown device fstype target
  unfolding grow_filesystem
  grow_filesystem_ok device fstype target w h = elim (Bool-cases (is_ext host fstype)) [
    | inl ext ↦ inl (
      ext,
      run_or_install_ok "resize2fs" "e2fsprogs" "e2fsprogs" (device ∷ []) w
          (wrap_error_ok "growing filesystem: " _ tt (rw ext at h)),
    )
    | inr other ↦ elim (Bool-cases (str_eq fstype "xfs")) [
      | inl xfs ↦ inr (
        (eq_iff fstype "xfs").0 xfs,
        run_or_install_ok "xfs_growfs" "xfsprogs" "xfsprogs" (target ∷ []) w
            (wrap_error_ok "growing filesystem: " _ tt (rw (other, xfs) at h)),
      )
      | inr unknown ↦ ground arith
    ]
  ]

  -- Growing succeeds only on a file system of the ext family or XFS, and only if the tool of that file
  -- system ran well on it.
  pub grow_ok :
      (device fstype target : String) (w : W)
      → (grow host device fstype target w).0 ≡ ok tt
      → IsGrown device fstype target
  unfolding grow
  grow_ok device fstype target w h =
      let (u, partitioned, rest) =
        bind_result_ok (grow_partition host device w)
          (λ u. grow_filesystem host device fstype target) tt (grow host device fstype target w).1
          (ap (λ r. (r, (grow host device fstype target w).1)) h) in
      grow_filesystem_ok device fstype target (grow_partition host device w).1 (ap (λ p. p.0) rest)
