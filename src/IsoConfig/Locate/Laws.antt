-- ===== src/IsoConfig/Locate/Laws.antt =====
-- What the locators of pkg/isoconfig mount, and what they give back to undo it.
use pfsense_agent.Base.{
  String, ◌<>◌, ◌≡◌, refl, Bool, true, false, ◌⊎◌, inl, inr, Option, none, some, List, [], ◌∷◌,
  ◌++◌, Error, Option-cases,
}
use pfsense_agent.Executor.{Execution}
use pfsense_agent.IsoConfig.Load.{Located}
use pfsense_agent.IsoConfig.Locate.{
  Host, mount_info_has_config_drive, mount_output_has_config_drive, noop, unmount, after_mount,
  after_mkdir, ensure_mounted, on_label, locate_linux, after_list, on_geom, locate_freebsd,
}

module _ {S : Type 0} (host : Host S) where
  -- Mounting a drive fails and leaves nothing to undo, or it is one run of `mount` that ended well, and
  -- what the caller gets to undo it is one run of `umount`.
  abbrev pub IsTried : List String → String → Located S × S → Type 0
  IsTried args path (found, s') =
      ((e : Error) × (found ≡ record { dir = ""; failure = some e; unmount = noop host }))
      ⊎ ((t : S) × (found ≡ record { dir = path; failure = none; unmount = unmount host path })
          × ((host.execute "mount" args t).0.failure ≡ none)
          × (s' ≡ (host.execute "mount" args t).1))

  -- A drive that is mounted is used as it is, with nothing to undo; any other is tried to be mounted.
  abbrev pub IsEnsured : List String → String → Bool → S → Located S × S → Type 0
  IsEnsured args path mounted s (found, s') =
      ((mounted ≡ true)
        × (found ≡ record { dir = path; failure = none; unmount = noop host })
        × (s' ≡ s))
      ⊎ ((mounted ≡ false) × IsTried args path (found, s'))

  after_mount-IsTried :
      (options : List String) (device path : String) (t : S)
      → IsTried
          (options ++ device ∷ path ∷ [])
          path
          (after_mount host device path (host.execute "mount" (options ++ device ∷ path ∷ []) t))
  unfolding after_mount
  after_mount-IsTried options device path t =
      elim (Option-cases (host.execute "mount" (options ++ device ∷ path ∷ []) t).0.failure) [
        | inl well ↦ rw well (inr (t, refl, well, refl))
        | inr (e, failed) ↦ rw failed (inl (_, refl))
      ]

  after_mkdir-IsTried :
      (options : List String) (device path : String) (o : Option Error) (t : S)
      → IsTried (options ++ device ∷ path ∷ []) path (after_mkdir host options device path (o, t))
  unfolding after_mkdir
  after_mkdir-IsTried options device path none t = after_mount-IsTried options device path t
  after_mkdir-IsTried options device path (some e) t = inl (_, refl)

  ensure_mounted-IsEnsured :
      (options : List String) (device path : String) (mounted : Bool) (s : S)
      → IsEnsured
          (options ++ device ∷ path ∷ [])
          path
          mounted
          s
          (ensure_mounted host options device path mounted s)
  unfolding ensure_mounted
  ensure_mounted-IsEnsured options device path true s = inl (refl, refl, refl)
  ensure_mounted-IsEnsured options device path false s =
      inr (refl, after_mkdir-IsTried options device path _ _)

  -- By whether the device is there: without one, nothing is found, nothing fails and nothing is done.
  abbrev pub IsMissing : Option Error → S → Located S × S → Type 0
  IsMissing o s r =
      (e : Error) × (o ≡ some e)
      × (r ≡ (record { dir = ""; failure = none; unmount = noop host }, s))

  on_label-cases :
      (path device : String) (o : Option Error) (s : S)
      → IsMissing o s (on_label host path device o s)
        ⊎ ((o ≡ none)
            × IsEnsured
                (device ∷ path ∷ [])
                path
                (mount_info_has_config_drive (host.read_file "/proc/self/mountinfo" s) path)
                s
                (on_label host path device o s))
  unfolding on_label
  on_label-cases path device (some e) s = inl (e, refl, refl)
  on_label-cases path device none s = inr (refl, ensure_mounted-IsEnsured [] device path _ s)

  -- On Linux, a config-drive without a device is not found and nothing is done; one that mountinfo shows
  -- as mounted is used without running a command; and otherwise a mount is tried, which either fails
  -- with nothing to undo, or ended well and is undone by `umount`.
  pub locate_linux_lem :
      (path label : String) (s : S)
      → IsMissing (host.stat ("/dev/disk/by-label/" <> label) s) s (locate_linux host path label s)
        ⊎ ((host.stat ("/dev/disk/by-label/" <> label) s ≡ none)
            × IsEnsured
                (("/dev/disk/by-label/" <> label) ∷ path ∷ [])
                path
                (mount_info_has_config_drive (host.read_file "/proc/self/mountinfo" s) path)
                s
                (locate_linux host path label s))
  unfolding locate_linux
  locate_linux_lem path label s = on_label-cases path ("/dev/disk/by-label/" <> label) _ s

  -- After `mount` has listed the mounts: a failure of it is reported, with nothing to undo.
  abbrev pub IsListed : String → String → Execution × S → Located S × S → Type 0
  IsListed device path (run, t) (found, s') =
      ((e : Error) × (run.failure ≡ some e)
        × ((e' : Error) × (found ≡ record { dir = ""; failure = some e'; unmount = noop host }))
        × (s' ≡ t))
      ⊎ ((run.failure ≡ none)
          × IsEnsured ("-t" ∷ "cd9660" ∷ device ∷ path ∷ []) path
              (mount_output_has_config_drive run.stdout path) t (found, s'))

  after_list-IsListed :
      (device path : String) (run : Execution) (t : S)
      → IsListed device path (run, t) (after_list host device path (run, t))
  unfolding after_list
  after_list-IsListed device path run t = elim (Option-cases run.failure) [
    | inl well ↦
        rw well (inr (refl, ensure_mounted-IsEnsured ("-t" ∷ "cd9660" ∷ []) device path _ t))
    | inr (e, failed) ↦ rw failed (inl (e, refl, (_, refl), refl))
  ]

  on_geom-cases :
      (path device : String) (o : Option Error) (s : S)
      → IsMissing o s (on_geom host path device o s)
        ⊎ ((o ≡ none)
            × IsListed device path (host.execute "mount" [] s) (on_geom host path device o s))
  unfolding on_geom
  on_geom-cases path device (some e) s = inl (e, refl, refl)
  on_geom-cases path device none s = inr (
    refl,
    after_list-IsListed device path (host.execute "mount" [] s).0 (host.execute "mount" [] s).1,
  )

  -- On FreeBSD, a config-drive without a device is not found and nothing is done; a failure to list the
  -- mounts is reported; a drive that the list shows as mounted is used without another command; and
  -- otherwise a mount is tried, which either fails with nothing to undo, or ended well and is undone
  -- by `umount`.
  pub locate_freebsd_lem :
      (path label : String) (s : S)
      → IsMissing (host.stat ("/dev/iso9660/" <> label) s) s (locate_freebsd host path label s)
        ⊎ ((host.stat ("/dev/iso9660/" <> label) s ≡ none)
            × IsListed
                ("/dev/iso9660/" <> label)
                path
                (host.execute "mount" [] s)
                (locate_freebsd host path label s))
  unfolding locate_freebsd
  locate_freebsd_lem path label s = on_geom-cases path ("/dev/iso9660/" <> label) _ s
