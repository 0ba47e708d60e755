-- ===== src/Args/Settings/Laws.antt =====
-- Saving, loading and editing the settings.
use anycode.Base.{◌≡◌, refl, true, false, arith}
use anycode.Args.Settings.{
  SettingId, agents, ClaudeSettingsManager, builtin_registry, get, set, toggle, to_toml_map,
  toml_map_of, load_from_toml, is_dirty, to_snapshots, apply_snapshots, snapshot_values,
}

-- For a manager with the built-in settings: values that are written to the configuration file and
-- loaded by any manager, and values that the dialog takes and gives back to any manager, are the
-- values there were; right after a snapshot nothing counts as changed, and after one toggle something
-- does.
pub settings_roundtrip :
    (m n : ClaudeSettingsManager) (id : SettingId)
    → m.registry ≡ builtin_registry
    → (get (load_from_toml n (to_toml_map m)) id ≡ get m id)
      × (get (apply_snapshots n (to_snapshots m)) id ≡ get m id)
      × (is_dirty m (snapshot_values m) ≡ false)
      × (is_dirty (toggle m id) (snapshot_values m) ≡ true)
unfolding load_from_toml to_toml_map toml_map_of apply_snapshots to_snapshots is_dirty
    snapshot_values toggle set
settings_roundtrip m n agents e = (rw e refl, rw e refl, rw e (ground arith), rw e (ground arith))
