-- ===== src/Backend/Tests.antt =====
-- Backend switches and reloads on a concrete profile.
use anycode.Base.{◌≡◌, refl, true, none, some, [], ◌∷◌}
use anycode.Config.{Backend, CliProfile, default_backend, default_defaults}
use anycode.Backend.State.{
  BackendStateInner, ok, err, backend_not_found, from_config, get_active_backend_config,
  switch_backend, update_config,
}
use anycode.Backend.State.Valid.{IsChain, last_logged}
use anycode.Backend.State.Laws.{started, switched, active_available, update_config-dangling}
use anycode.Backend.Agents.{AgentRegistry}

abbrev other : Backend
other = record default_backend { name = "other" }

abbrev profile : CliProfile
profile = record {
  defaults = default_defaults;
  backends = default_backend ∷ other ∷ [];
  agents = none;
  claude_settings = [];
}

abbrev at_start : BackendStateInner
at_start = record {
  active_backend = "claude";
  config = profile;
  switch_log = record { timestamp = 7; old_backend = none; new_backend = "claude" } ∷ [];
  models_cached = true;
}

from_config-profile : from_config 7 true profile ≡ ok at_start
unfolding from_config
from_config-profile = refl

abbrev moved : BackendStateInner
moved = (switch_backend 8 at_start "other").0

active_available_example :
    ((b : Backend) × (get_active_backend_config moved ≡ ok b) × (b.name ≡ moved.active_backend))
    × (last_logged moved.switch_log ≡ some moved.active_backend)
    × IsChain moved.switch_log
active_available_example =
    active_available moved (switched 8 "other" (started 7 true profile from_config-profile))

-- A profile whose default names no backend of it.
abbrev broken : CliProfile
broken = record profile {
  backends = other ∷ [];
  defaults = record default_defaults { active = "gone" };
}

update_config-dangling_example :
    ((update_config 8 at_start broken).1 ≡ none)
    × (get_active_backend_config (update_config 8 at_start broken).0
        ≡ err (backend_not_found "gone"))
update_config-dangling_example =
    update_config-dangling 8 at_start broken other [] refl refl (λ e. cc) refl

abbrev agents : AgentRegistry
agents = ("a1", "claude") ∷ ("a2", "other") ∷ []
