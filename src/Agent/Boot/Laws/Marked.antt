-- ===== src/Agent/Boot/Laws/Marked.antt =====
-- The world in which the boot network configuration of cmd/agent/main.go leaves a marked machine.
use pfsense_agent.Base.{
  ◌≡◌, refl, true, false, Option, none, some, List, [], ◌∷◌, Result, ok, err, Error, arith,
  Bool-cases, inl, inr,
}
use pfsense_agent.IsoConfig.{VirtualNetworkCard, IsoMetadata, network_cards}
use pfsense_agent.Pfsense.{BootNetworkResult}
use pfsense_agent.Agent.Boot.{
  Machine, Ports, is_unreachable, mark, verify, after_apply, apply_to, apply_boot_network_config,
  Outcome,
}
use pfsense_agent.Agent.Boot.Laws.{undo_unmarked}

module _ {W : Type 0} (ports : Ports W) where
  -- The step ended with the writing of the marker, which succeeded.
  abbrev pub EndsWritten : Outcome × Machine W → Type 0
  EndsWritten q = (w : W) × (ports.write_marker w ≡ (none, q.1.world))

  mark-EndsWritten :
      (w : W) (p : Option Error × W)
      → ports.write_marker w ≡ p
      → (mark ports p).1.marker ≡ true
      → EndsWritten (mark ports p)
  unfolding mark
  mark-EndsWritten w (none, v) e marked = (w, e)
  mark-EndsWritten w (some x, v) e marked = ground arith

  verify-EndsWritten :
      (result : BootNetworkResult) (p : Option Error × W)
      → (verify ports result p).1.marker ≡ true
      → EndsWritten (verify ports result p)
  unfolding verify
  verify-EndsWritten result (e, w) marked = elim (Bool-cases (is_unreachable ports e)) [
    | inl lost ↦ ground (arith, undo_unmarked ports result.snapshot w)
    | inr reached ↦
        rw reached (mark-EndsWritten w (ports.write_marker w) refl (rw reached at marked))
  ]

  after_apply-EndsWritten :
      (r : Result (Option BootNetworkResult) × W)
      → (after_apply ports r).1.marker ≡ true
      → EndsWritten (after_apply ports r)
  unfolding after_apply
  after_apply-EndsWritten (err e, w) marked = ground arith
  after_apply-EndsWritten (ok none, w) marked = ground arith
  after_apply-EndsWritten (ok (some result), w) marked =
      verify-EndsWritten result (ports.probe w) marked

  apply_to-EndsWritten :
      (cards : List VirtualNetworkCard) (w : W)
      → (apply_to ports cards w).1.marker ≡ true
      → EndsWritten (apply_to ports cards w)
  unfolding apply_to
  apply_to-EndsWritten [] w marked = ground arith
  apply_to-EndsWritten (c ∷ cs) w marked = after_apply-EndsWritten _ marked

  pub apply_boot_network_config-EndsWritten :
      (iso : IsoMetadata) (w : W)
      → (apply_boot_network_config ports iso (record { marker = false; world = w })).1.marker ≡ true
      → EndsWritten (apply_boot_network_config ports iso (record { marker = false; world = w }))
  unfolding apply_boot_network_config
  apply_boot_network_config-EndsWritten iso w marked =
      apply_to-EndsWritten (network_cards iso) w marked
