-- ===== src/Agent/Marker/Laws.antt =====
-- What the marker file of cmd/agent/main.go keeps a later start from.
use mathlib.Core.Bool.{true≢false}
use mathlib.Core.Option.{some-ne-none}
use pfsense_agent.Base.{
  String, sym, Bool-cases, Option-cases, inl, inr, str_eq, Bool, ◌≡◌, refl, true, false, none,
  Result, ok, err, Unit0, ap, ◌∙◌, bind_result,
}
use pfsense_agent.Config.{NatsConfig}
use pfsense_agent.IsoConfig.{IsoMetadata, password}
use pfsense_agent.Agent.Identity.{Identity}
use pfsense_agent.Pfsense
use pfsense_agent.Agent.Boot.{
  Machine, NatsConnect, apply_boot_network_config, apply_boot_password, run_boot_provisioning,
}
use pfsense_agent.Agent.Boot.Laws.Marked.{apply_boot_network_config-EndsWritten}
use pfsense_agent.Agent.Marker.{
  Files, marker_path, error_of, has_marker, write_marker, boot_ports, machine, provision,
}

module _ {W : Type 0} (files : Files W)
    (writes : (w v : W)
      → files.write_empty marker_path w ≡ (ok tt, v)
      → files.stat marker_path v ≡ none) where
  written_shown :
      (r : Result Unit0 × W) (w v : W)
      → files.write_empty marker_path w ≡ r
      → error_of r ≡ (none, v)
      → files.stat marker_path v ≡ none
  written_shown (ok u, w') w v e h = writes w v (e ∙ ap (λ x. (ok tt, x)) (ap (λ p. p.1) h))
  written_shown (err x, w') w v e h = absurd (some-ne-none x (ap (λ p. p.0) h))

  after_mkdir_shown :
      (r : Result Unit0 × W) (v : W)
      → error_of (bind_result r (λ _. files.write_empty marker_path)) ≡ (none, v)
      → files.stat marker_path v ≡ none
  after_mkdir_shown (ok u, w) v e = written_shown (files.write_empty marker_path w) w v refl e
  after_mkdir_shown (err x, w) v e = absurd (some-ne-none x (ap (λ p. p.0) e))

  write_marker_shown :
      (w v : W) → write_marker files marker_path w ≡ (none, v) → has_marker files v ≡ true
  unfolding write_marker
  write_marker_shown w v e =
      rw (after_mkdir_shown (files.mkdir_all (files.dir_of marker_path) w) v e, has_marker) refl

  -- A network step that marks the machine leaves a world in which the file is found.
  marked_shown :
      (pfsense : Pfsense.Manager W) (nats_connect : NatsConnect W) (drain : W → W)
      (cfg : NatsConfig) (id : Identity) (iso : IsoMetadata) (w : W) (b : Bool)
      → b ≡ false
      → (apply_boot_network_config
          (boot_ports files pfsense nats_connect drain cfg id)
          iso
          (record { marker = b; world = w })).1.marker
        ≡ true
      → has_marker files
          (apply_boot_network_config
            (boot_ports files pfsense nats_connect drain cfg id)
            iso
            (record { marker = b; world = w })).1.world
        ≡ true
  marked_shown pfsense nats_connect drain cfg id iso w true e marked = absurd (true≢false e)
  marked_shown pfsense nats_connect drain cfg id iso w false e marked =
      let ports = boot_ports files pfsense nats_connect drain cfg id in
      let (u, written) = apply_boot_network_config-EndsWritten ports iso w marked in
      write_marker_shown u
        (apply_boot_network_config ports iso (record { marker = false; world = w })).1.world written

  found_marker : (w : W) → has_marker files w ≡ true → files.stat marker_path w ≡ none
  found_marker w found = elim (Option-cases (files.stat marker_path w)) [
    | inl absent ↦ absent
    | inr (e, shown) ↦ absurd (true≢false (sym (rw (has_marker, shown) at found)))
  ]

  shown_marker : (w : W) → files.stat marker_path w ≡ none → has_marker files w ≡ true
  shown_marker w shown = rw (has_marker, shown) refl

  module _ (pfsense : Pfsense.Manager W)
      (password_keeps : (password : String) (u : W)
        → files.stat marker_path u ≡ none
        → files.stat marker_path (pfsense.set_default_user_password password u).1 ≡ none)
      (nats_connect : NatsConnect W) (drain : W → W) where
    -- The password step leaves the file where it is.
    apply_boot_password_keeps :
        (cfg : NatsConfig) (id : Identity) (iso : IsoMetadata) (m : Machine W)
        → files.stat marker_path m.world ≡ none
        → files.stat marker_path
            (apply_boot_password (boot_ports files pfsense nats_connect drain cfg id) iso m).world
          ≡ none
    unfolding apply_boot_password
    apply_boot_password_keeps cfg id iso m shown = elim (Bool-cases (str_eq (password iso) "")) [
      | inl none_given ↦ rw none_given shown
      | inr given ↦ rw given (password_keeps (password iso) m.world shown)
    ]

    -- A start that finds the file.
    provision_marked :
        (cfg : NatsConfig) (id : Identity) (iso : IsoMetadata) (w : W)
        → files.stat marker_path w ≡ none
        → provision files pfsense nats_connect drain cfg iso id w
          ≡ (apply_boot_password
              (boot_ports files pfsense nats_connect drain cfg id)
              iso
              (record { marker = true; world = w })).world
    unfolding provision run_boot_provisioning apply_boot_network_config
    provision_marked cfg id iso w shown =
        ap
          (λ b.
            (run_boot_provisioning (boot_ports files pfsense nats_connect drain cfg id) iso
              (record { marker = b; world = w })).world)
          (shown_marker w shown)

    provision_leaves_marker :
        (cfg : NatsConfig) (id : Identity) (iso : IsoMetadata) (w : W)
        → has_marker files w ≡ false
        → (apply_boot_network_config
            (boot_ports files pfsense nats_connect drain cfg id)
            iso
            (machine files w)).1.marker
          ≡ true
        → files.stat marker_path (provision files pfsense nats_connect drain cfg iso id w) ≡ none
    unfolding provision run_boot_provisioning
    provision_leaves_marker cfg id iso w absent marked =
        let ports = boot_ports files pfsense nats_connect drain cfg id in
        let m = (apply_boot_network_config ports iso (machine files w)).1 in
        apply_boot_password_keeps cfg id iso m (
          found_marker m.world (
            marked_shown pfsense nats_connect drain cfg id iso w (has_marker files w) absent
              marked))

    -- A machine that a start has marked is not configured by a later one. If a file that was written is
    -- found afterwards, and neither the setting of the password nor what happens between the two
    -- starts removes it, then the start after one whose network step wrote the marker only sets
    -- the password, whatever its metadata, identity and configuration are, and leaves the
    -- file for the next one.
    pub provision_once :
        (cfg later_cfg : NatsConfig) (id later_id : Identity) (iso later : IsoMetadata)
        (between : W → W) (w : W)
        → ((u : W) → files.stat marker_path u ≡ none → files.stat marker_path (between u) ≡ none)
        → has_marker files w ≡ false
        → (apply_boot_network_config
            (boot_ports files pfsense nats_connect drain cfg id)
            iso
            (machine files w)).1.marker
          ≡ true
        → (let v = between (provision files pfsense nats_connect drain cfg iso id w) in
            (provision files pfsense nats_connect drain later_cfg later later_id v
              ≡ (apply_boot_password
                  (boot_ports files pfsense nats_connect drain later_cfg later_id)
                  later
                  (record { marker = true; world = v })).world)
            × (has_marker files
                  (provision files pfsense nats_connect drain later_cfg later later_id v)
                ≡ true))
    provision_once cfg later_cfg id later_id iso later between w between_keeps absent marked =
        let first = provision files pfsense nats_connect drain cfg iso id w in
        let shown = between_keeps first (provision_leaves_marker cfg id iso w absent marked) in
        let again = provision_marked later_cfg later_id later (between first) shown in
        (
          again,
          ap (has_marker files) again
              ∙ shown_marker
                  (apply_boot_password
                    (boot_ports files pfsense nats_connect drain later_cfg later_id) later
                    (record { marker = true; world = between first })).world
                  (apply_boot_password_keeps later_cfg later_id later
                    (record { marker = true; world = between first }) shown),
        )
