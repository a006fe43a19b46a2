-- ===== src/Agent/Boot/Laws.antt =====
-- When the boot network configuration of cmd/agent/main.go is marked done, and when it is undone.
pub mod Marked
use pfsense_agent.Base.{
  String, ◌≡◌, refl, ◌≢◌, inl, inr, true, false, Option, none, some, List, [], ◌∷◌, Result, ok, err,
  Error, arith, Bool-cases, str_eq, eq_iff, All, Unit0,
}
use pfsense_agent.IsoConfig.{VirtualNetworkCard, IsoMetadata, network_cards}
use pfsense_agent.Pfsense.{BootNetworkResult, InterfaceApplyResult}
use pfsense_agent.Agent.Boot.{
  Machine, Ports, already_done, has_snapshot, is_unreachable, mark, undo, verify, after_apply,
  after_revert, apply_to, apply_boot_network_config,
}

eq_false : (s t : String) → s ≢ t → str_eq s t ≡ false
eq_false s t differ = ground (arith, eq_iff s t)

module _ {W : Type 0} (ports : Ports W) where
  -- The operation returned a result, and the server was reached afterwards, though it may have refused
  -- the credentials.
  pub record IsVerified (r : Result (Option BootNetworkResult) × W) (result : BootNetworkResult)
      : Type 0 where
    pub applies : r.0 ≡ ok (some result)
    pub reached : is_unreachable ports (ports.probe r.1).0 ≡ false

  after_revert_unmarked : (r : Result Unit0 × W) → (after_revert ports r).1.marker ≡ false
  unfolding after_revert
  after_revert_unmarked (ok _, w) = refl
  after_revert_unmarked (err e, w) = refl

  after_revert_world : (r : Result Unit0 × W) → (after_revert ports r).1.world ≡ r.1
  unfolding after_revert
  after_revert_world (ok _, w) = refl
  after_revert_world (err e, w) = refl

  undo_unmarked : (s : Option String) (w : W) → (undo ports s w).1.marker ≡ false
  unfolding undo
  undo_unmarked s w = elim (Bool-cases (has_snapshot ports s)) [
    | inl there ↦ rw there (after_revert_unmarked (ports.pfsense.revert _ w))
    | inr absent ↦ rw absent refl
  ]

  mark_written : (p : Option Error × W) → p.0 ≡ none → (mark ports p).1.marker ≡ true
  unfolding mark
  mark_written (none, w) e = refl
  mark_written (some _, w) e = ground arith

  verify_marked :
      (result : BootNetworkResult) (p : Option Error × W)
      → (verify ports result p).1.marker ≡ true
      → is_unreachable ports p.0 ≡ false
  unfolding verify
  verify_marked result (e, w) marked = elim (Bool-cases (is_unreachable ports e)) [
    | inl lost ↦ ground (arith, undo_unmarked result.snapshot w)
    | inr reached ↦ reached
  ]

  after_apply_marked :
      (r : Result (Option BootNetworkResult) × W)
      → (after_apply ports r).1.marker ≡ true
      → (result : BootNetworkResult) × IsVerified r result
  unfolding after_apply
  after_apply_marked (err e, w) marked = ground arith
  after_apply_marked (ok none, w) marked = ground arith
  after_apply_marked (ok (some result), w) marked =
      (result, record { applies = refl; reached = verify_marked result (ports.probe w) marked })

  apply_to_marked :
      (cards : List VirtualNetworkCard) (w : W)
      → (apply_to ports cards w).1.marker ≡ true
      → (cards ≢ [])
        × ((result : BootNetworkResult) × IsVerified
              (ports.pfsense.apply_boot_network_config cards w)
              result)
  unfolding apply_to
  apply_to_marked [] w marked = ground arith
  apply_to_marked (c ∷ cs) w marked = (λ e. ground arith, after_apply_marked _ marked)

  -- A machine without the marker is marked only if the metadata has network cards, the operation
  -- returned a result for them, and the server was reached after that, though it may have refused
  -- the credentials.
  pub apply_boot_network_config-IsVerified :
      (iso : IsoMetadata) (m : Machine W)
      → m.marker ≡ false
      → (apply_boot_network_config ports iso m).1.marker ≡ true
      → (network_cards iso ≢ [])
        × ((result : BootNetworkResult) × IsVerified
              (ports.pfsense.apply_boot_network_config (network_cards iso) m.world)
              result)
  unfolding apply_boot_network_config
  apply_boot_network_config-IsVerified iso m unmarked marked =
      apply_to_marked (network_cards iso) m.world (rw unmarked at marked)

  -- A marked machine is not configured again: whatever the metadata, the step after one that wrote the
  -- marker leaves the machine as it is.
  pub apply_boot_network_config_once :
      (iso later : IsoMetadata) (m : Machine W)
      → (apply_boot_network_config ports iso m).1.marker ≡ true
      → apply_boot_network_config ports later (apply_boot_network_config ports iso m).1
        ≡ (already_done, (apply_boot_network_config ports iso m).1)
  unfolding apply_boot_network_config
  apply_boot_network_config_once iso later m marked = rw marked refl

  module _ (iso : IsoMetadata) (m : Machine W) (result : BootNetworkResult) (w : W)
      (unmarked : m.marker ≡ false) (some_cards : network_cards iso ≢ [])
      (applies : ports.pfsense.apply_boot_network_config (network_cards iso) m.world
        ≡ (ok (some result), w)) where
    apply_to_result :
        (cards : List VirtualNetworkCard) (w₀ : W)
        → cards ≢ []
        → ports.pfsense.apply_boot_network_config cards w₀ ≡ (ok (some result), w)
        → apply_to ports cards w₀ ≡ verify ports result (ports.probe w)
    unfolding apply_to after_apply
    apply_to_result [] w₀ h e = ground arith
    apply_to_result (c ∷ cs) w₀ h e = rw e refl

    apply_boot_verify : apply_boot_network_config ports iso m ≡ verify ports result (ports.probe w)
    unfolding apply_boot_network_config
    apply_boot_verify = rw unmarked (apply_to_result (network_cards iso) m.world some_cards applies)

    -- On a machine without the marker whose metadata has network cards, and for which the operation
    -- returned a result with a snapshot: if the server cannot be reached afterwards, for another
    -- reason than its refusing the credentials, the snapshot is given back to pfSense as the last
    -- change, and the marker is not written.
    pub apply_boot_network_config_reverts :
        (snapshot : String)
        → result.snapshot ≡ some snapshot
        → snapshot ≢ ""
        → is_unreachable ports (ports.probe w).0 ≡ true
        → ((apply_boot_network_config ports iso m).1.marker ≡ false)
          × ((apply_boot_network_config ports iso m).1.world
              ≡ (ports.pfsense.revert result.snapshot (ports.probe w).1).1)
    unfolding verify undo has_snapshot
    apply_boot_network_config_reverts snapshot taken nonempty lost =
        rw (apply_boot_verify, lost, taken, eq_false snapshot "" nonempty)
          (
            after_revert_unmarked (ports.pfsense.revert (some snapshot) (ports.probe w).1),
            after_revert_world (ports.pfsense.revert (some snapshot) (ports.probe w).1),
          )

    -- On a machine without the marker whose metadata has network cards, and for which the operation
    -- returned a result: if the server is reached and the marker file can be written, the machine
    -- is marked, although none of the interfaces in the result was applied.
    pub apply_boot_network_config_unapplied :
        All (λ (r : InterfaceApplyResult). r.applied ≡ false) result.interfaces
        → is_unreachable ports (ports.probe w).0 ≡ false
        → (ports.write_marker (ports.probe w).1).0 ≡ none
        → (apply_boot_network_config ports iso m).1.marker ≡ true
    unfolding verify
    apply_boot_network_config_unapplied none_applied reached written =
        rw (apply_boot_verify, reached)
          (mark_written (ports.write_marker (ports.probe w).1) written)
