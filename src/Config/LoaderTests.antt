-- ===== src/Config/LoaderTests.antt =====
-- Validation and migration on concrete configurations.
use anycode.Base.{
  ℕ, String, length, ◌≡◌, ◌≢◌, refl, true, false, not, Option, none, some, List, [], ◌∷◌, str_eq,
  str_eq_iff, if◌then◌else◌,
}
use anycode.Config.{
  AgentsConfig, CliProfile, default_backend, default_defaults, is_configured, resolve_credential,
  parse_auth_type,
}
use anycode.Config.Loader.{
  Config, claude, profile, ok, validation_error, validate_for, get, claude_table,
  migrate_toml_value,
}
use anycode.Config.Loader.Valid.{Startable, validate_for-Startable}
use anycode.Config.Loader.Migrate.{is_old_format, is_old, migrate_toml_value_lem}

abbrev same_case : String → String
same_case s = s

abbrev with_agents : String → Option AgentsConfig
with_agents teammate = some (record { teammate_backend = teammate; subagent_backend = none })

abbrev profile_of : Option AgentsConfig → CliProfile
profile_of agents = record {
  defaults = default_defaults;
  backends = default_backend ∷ [];
  agents = agents;
  claude_settings = [];
}

abbrev config_of : Option AgentsConfig → Config
config_of agents = record { claude_profile = profile_of agents; copilot_profile = profile_of none }

valid_test : validate_for same_case (config_of (with_agents "claude")) claude ≡ ok
unfolding validate_for is_configured resolve_credential parse_auth_type
valid_test = refl

unknown_teammate_test :
    validate_for same_case (config_of (with_agents "other")) claude
    ≡ validation_error "[claude] agents.teammate_backend 'other' not found in configured backends"
unfolding validate_for is_configured resolve_credential parse_auth_type
unknown_teammate_test = refl

default_named : default_defaults.active ≢ ""
default_named e = let f : false ≡ true = (str_eq_iff "claude" "").1 e in cc f

validate_for-Startable_example :
    Startable same_case 3 true (profile (config_of (with_agents "claude")) claude)
validate_for-Startable_example =
    validate_for-Startable same_case (config_of (with_agents "claude")) claude 3 true refl
      default_named valid_test

-- A value is a number, and the number of its members stands for a table.
abbrev table : List (String × ℕ) → ℕ
table t = length t

abbrev old_file : List (String × ℕ)
old_file = ("defaults", 7) ∷ ("proxy", 8) ∷ ("backends", 9) ∷ []

migrate_test : migrate_toml_value table old_file ≡ (("claude", 2) ∷ ("proxy", 8) ∷ [], true)
unfolding migrate_toml_value
migrate_test = refl

migrate_toml_value_lem_example :
    let r = migrate_toml_value table old_file in
    (r.1 ≡ is_old_format old_file)
    × (get r.0 "proxy" ≡ (
        if not (is_old_format old_file)
        then get old_file "proxy"
        else if str_eq "claude" "proxy"
        then some (table (claude_table old_file))
        else if is_old "proxy"
        then none
        else get old_file "proxy"))
    × (get (claude_table old_file) "proxy"
        ≡ (if is_old "proxy" then get old_file "proxy" else none))
    × (migrate_toml_value table r.0 ≡ (r.0, false))
migrate_toml_value_lem_example = migrate_toml_value_lem table old_file "proxy"
