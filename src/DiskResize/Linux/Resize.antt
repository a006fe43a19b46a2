-- ===== src/DiskResize/Linux/Resize.antt =====
-- `Resize` of internal/modules/diskresize/linux.go from end to end.
use mathlib.Core.Option.{some-injective}
use pfsense_agent.Base.{
  ℕ, String, ◌≡◌, refl, ap, sym, ◌∙◌, false, Option, none, some, List, [], ◌∷◌, ◌++◌, ok, str_eq,
  eq_iff, All, Bool-cases, wrapped, pure, ◌>>=◌, ◌>>◌, quote, ◌<>◌, Io, arith, inl, inr,
}
use mathlib.Core.Path.{subst}
use pfsense_agent.Base.{◌<◌, ◌^◌}
use pfsense_agent.Base.Int.Laws.{IsDifference, sub64-IsDifference}
use pfsense_agent.Base.Results.Succeeds.{not_ok, ok-injective, wrap_error_ok, bind_result_ok}
use pfsense_agent.DiskResize.{ResizeResult}
use pfsense_agent.DiskResize.Linux.{Host, Mount, mounted_at, measured, resize_mount, grow, resize}
use pfsense_agent.DiskResize.Linux.Laws.{IsGrown, grow_ok}

module _ {W : Type 0} (host : Host W) where
  -- The first of the mounts at a target.
  abbrev pub IsFirstAt : String → List Mount → Mount → Type 0
  IsFirstAt target mounts m =
      (earlier later : List Mount) × (mounts ≡ earlier ++ m ∷ later)
      × (m.mountpoint ≡ target)
      × All (λ k. str_eq k.mountpoint target ≡ false) earlier

  mounted_at-IsFirstAt :
      (target : String) (mounts : List Mount) (m : Mount)
      → mounted_at host target mounts ≡ some m
      → IsFirstAt target mounts m
  unfolding mounted_at
  mounted_at-IsFirstAt target [] m e = ground arith
  mounted_at-IsFirstAt target (k ∷ ks) m e = elim (Bool-cases (str_eq k.mountpoint target)) [
    | inl here ↦
        let same = some-injective k m (rw here at e) in
        (
          [],
          ks,
          ap (λ x. x ∷ ks) same,
          ap (λ x. x.mountpoint) (sym same) ∙ (eq_iff k.mountpoint target).0 here,
          tt,
        )
    | inr elsewhere ↦
        let (earlier, later, made, at, none_before) =
          mounted_at-IsFirstAt target ks m (rw elsewhere at e) in
        (k ∷ earlier, later, ap (λ x. k ∷ x) made, at, (elsewhere, none_before))
  ]

  -- What a success says from the state in which the mounts are listed.
  abbrev HasGrown : String → Mount → W → ResizeResult → W → Type 0
  HasGrown target m u r w' =
      (before after : ℕ) × (v : W) × ((host.usage_total target u).0 ≡ ok before)
      × (grow host m.device m.fstype target (host.usage_total target u).1 ≡ (ok tt, v))
      × (host.usage_total target v ≡ (ok after, w'))
      × (r ≡ measured host target m before after)

  -- The measuring after the growth, with the result.
  abbrev measure : String → Mount → ℕ → Io W ResizeResult
  measure target m before = do
    after ←
        wrapped ("reading usage for " <> (quote target <> " after resize: "))
          (host.usage_total target)
    pure (measured host target m before after)

  measure_ok :
      (target : String) (m : Mount) (before : ℕ) (v w' : W) (r : ResizeResult)
      → measure target m before v ≡ (ok r, w')
      → (after : ℕ) × (host.usage_total target v ≡ (ok after, w'))
        × (r ≡ measured host target m before after)
  measure_ok target m before v w' r e =
      let prefix : String = "reading usage for " <> (quote target <> " after resize: ") in
      let (after, got, rest) =
        bind_result_ok (wrapped prefix (host.usage_total target) v)
          (λ after. pure (measured host target m before after)) r w' e in
      let read = wrap_error_ok prefix (host.usage_total target v).0 after got in
      (
        after,
        ap (λ q. (q, (host.usage_total target v).1)) read
            ∙ ap (λ z. (ok after, z)) (ap (λ p. p.1) rest),
        sym (ok-injective (measured host target m before after) r (ap (λ p. p.0) rest)),
      )

  resize_mount_ok :
      (target : String) (o : Option Mount) (u w' : W) (r : ResizeResult)
      → resize_mount host target o u ≡ (ok r, w')
      → (m : Mount) × (o ≡ some m) × HasGrown target m u r w'
  unfolding resize_mount
  resize_mount_ok target none u w' r e = absurd (not_ok _ r (ap (λ p. p.0) e))
  resize_mount_ok target (some m) u w' r e =
      let prefix : String = "reading usage for " <> (quote target <> ": ") in
      let (before, got, rest) =
        bind_result_ok (wrapped prefix (host.usage_total target) u)
          (λ before. grow host m.device m.fstype target >> measure target m before) r w' e in
      let (ended, grown, last) =
        bind_result_ok (grow host m.device m.fstype target (host.usage_total target u).1)
          (λ ended. measure target m before) r w' rest in
      let v = (grow host m.device m.fstype target (host.usage_total target u).1).1 in
      let (after, read, made) = measure_ok target m before v w' r last in
      (
        m,
        refl,
        (
          before,
          after,
          v,
          wrap_error_ok prefix (host.usage_total target u).0 before got,
          ap (λ r. (r, v)) grown,
          read,
          made,
        ),
      )

  -- A resize that succeeds was of the file system that is mounted first at its target: its size was
  -- read, it was grown on its device by its own tool, its size was read again, and the result has that
  -- device and both sizes.
  pub resize_ok :
      (target : String) (w w' : W) (r : ResizeResult)
      → resize host target w ≡ (ok r, w')
      → (mounts : List Mount) × (m : Mount) × (before after : ℕ) × (v : W) × ((host.partitions w).0
          ≡ ok mounts)
        × IsFirstAt target mounts m
        × ((host.usage_total target (host.partitions w).1).0 ≡ ok before)
        × (grow host m.device m.fstype target (host.usage_total target (host.partitions w).1).1
            ≡ (ok tt, v))
        × IsGrown host m.device m.fstype target
        × (host.usage_total target v ≡ (ok after, w'))
        × (r ≡ measured host target m before after)
  unfolding resize
  resize_ok target w w' r e =
      let (mounts, listed, rest) =
        bind_result_ok (wrapped "disk.Partitions: " host.partitions w)
          (λ mounts. resize_mount host target (mounted_at host target mounts)) r w' e in
      let (m, found, sized) =
        resize_mount_ok target (mounted_at host target mounts) (host.partitions w).1 w' r rest in
      let (before, after, v, read, grown, read_after, made) = sized in
      let size_known = (host.usage_total target (host.partitions w).1).1 in
      (
        mounts,
        m,
        before,
        after,
        v,
        wrap_error_ok "disk.Partitions: " (host.partitions w).0 mounts listed,
        mounted_at-IsFirstAt target mounts m found,
        read,
        grown,
        grow_ok host m.device m.fstype target size_known (ap (λ p. p.0) grown),
        read_after,
        made,
      )

  -- The reported growth of a file system whose sizes fit an `int64` is the difference of the two sizes, and
  -- is negative if the file system has shrunk.
  pub resize-IsDifference :
      (target : String) (w w' : W) (r : ResizeResult)
      → resize host target w ≡ (ok r, w')
      → r.after_bytes < 2 ^ 63
      → r.before_bytes < 2 ^ 63
      → IsDifference r.grown_bytes r.after_bytes r.before_bytes
  resize-IsDifference target w w' r e after_fits before_fits =
      let (mounts, m, before, after, v, listed, first, read, grew, grown, read_after, made) =
        resize_ok target w w' r e in
      subst (λ x. IsDifference x.grown_bytes x.after_bytes x.before_bytes) (sym made)
        (sub64-IsDifference after before (rw made at after_fits) (rw made at before_fits))
