-- ===== src/Config/Loader.antt =====
-- The validation of a profile and the migration of the old format (src/config/loader.rs), and the
-- modes of src/cli_mode.rs. `lower` is `str::to_lowercase`. A table of TOML is an association list
-- with values of any type.
pub mod Valid
pub mod Migrate
use anycode.Base.{
  String, ◌<>◌, Bool, true, false, not, ◌&&◌, Option, none, some, List, [], ◌∷◌, any, filter, find,
  str_eq, is_some, if◌then◌else◌,
}
use anycode.Config.{Backend, CliProfile, AgentsConfig, is_configured}

pub data CliMode : Type 0 where
  claude copilot : CliMode

abbrev pub profile_key : CliMode → String
profile_key claude = "claude"
profile_key copilot = "copilot"

abbrev pub binary : CliMode → String
binary claude = "claude"
binary copilot = "copilot"

abbrev pub is_claude : CliMode → Bool
is_claude claude = true
is_claude copilot = false

abbrev pub is_copilot : CliMode → Bool
is_copilot claude = false
is_copilot copilot = true

-- The two profiles of a configuration.
pub record Config : Type 0 where
  pub claude_profile : CliProfile
  pub copilot_profile : CliProfile

abbrev pub profile : Config → CliMode → CliProfile
profile config claude = config.claude_profile
profile config copilot = config.copilot_profile

-- `*config.profile_mut(mode) = profile`
abbrev pub set_profile : Config → CliMode → CliProfile → Config
set_profile config claude p = record config { claude_profile = p }
set_profile config copilot p = record config { copilot_profile = p }

-- `Result<(), ConfigError>` with the one error that validation gives.
pub data Validation : Type 0 where
  ok : Validation
  validation_error : (message : String) → Validation

abbrev pub is_empty : List Backend → Bool
is_empty [] = true
is_empty (_ ∷ _) = false

abbrev pub names : String → Backend → Bool
names id b = str_eq b.name id

abbrev pub in_profile : CliMode → String → String
in_profile mode text = "[" <> (profile_key mode <> ("] " <> text))

abbrev pub not_found : CliMode → String → String → Validation
not_found mode role id =
    validation_error
      (in_profile mode (role <> (" '" <> (id <> "' not found in configured backends"))))

abbrev pub check_subagent : CliMode → List Backend → Option String → Validation
check_subagent mode bs none = ok
check_subagent mode bs (some id) =
    if not (any (names id) bs) then not_found mode "agents.subagent_backend" id else ok

abbrev pub check_agents : CliMode → List Backend → Option AgentsConfig → Validation
check_agents mode bs none = ok
check_agents mode bs (some agents) =
    if not (any (names agents.teammate_backend) bs)
    then not_found mode "agents.teammate_backend" agents.teammate_backend
    else check_subagent mode bs agents.subagent_backend

abbrev pub check_active : (String → String) → CliMode → CliProfile → Option Backend → Validation
check_active lower mode p none = not_found mode "Active backend" p.defaults.active
check_active lower mode p (some b) =
    if not (is_configured lower b)
    then validation_error (
        in_profile mode
          ("Active backend '" <> (b.name <> "' is not configured — set api_key in config")))
    else check_agents mode p.backends p.agents

abbrev pub no_backends : CliMode → Validation
no_backends claude = validation_error "No backends configured for claude profile"
no_backends copilot = ok

unfoldable pub validate_for : (String → String) → Config → CliMode → Validation
validate_for lower config mode =
    let p = profile config mode in
    if is_empty p.backends
    then no_backends mode
    else check_active lower mode p (find (names p.defaults.active) p.backends)

unfoldable pub configured_backends : (String → String) → Config → List Backend
configured_backends lower config = filter (is_configured lower) config.claude_profile.backends

unfoldable pub active_backend : (String → String) → Config → Option Backend
active_backend lower config =
    find (λ b. names config.claude_profile.defaults.active b && is_configured lower b)
      config.claude_profile.backends

-- The value of a key, `contains_key`, `remove` and `insert` of a table.
module _ {V : Type 0} where
  abbrev pub get : List (String × V) → String → Option V
  get [] k = none
  get ((j, v) ∷ t) k = if str_eq j k then some v else get t k

  abbrev pub contains_key : List (String × V) → String → Bool
  contains_key t k = is_some (get t k)

  abbrev pub remove : List (String × V) → String → List (String × V)
  remove [] k = []
  remove ((j, v) ∷ t) k = let rest = remove t k in if str_eq j k then rest else (j, v) ∷ rest

  abbrev pub insert : List (String × V) → String → V → List (String × V)
  insert t k v = (k, v) ∷ remove t k

  -- `if let Some(v) = value { table.insert(k, v) }`
  abbrev pub insert_found : List (String × V) → String → Option V → List (String × V)
  insert_found t k none = t
  insert_found t k (some v) = insert t k v

  -- The members that move, in the order in which they are inserted.
  abbrev pub claude_table : List (String × V) → List (String × V)
  claude_table t =
      insert_found
        (insert_found
          (insert_found (insert_found [] "defaults" (get t "defaults")) "backends"
            (get t "backends"))
          "agents" (get t "agents"))
        "claude_settings" (get t "claude_settings")

  abbrev pub without_old : List (String × V) → List (String × V)
  without_old t =
      remove (remove (remove (remove t "backends") "defaults") "agents") "claude_settings"

  -- The table after the migration, and whether there was one; `table` makes a value of a table.
  unfoldable pub migrate_toml_value :
      (List (String × V) → V) → List (String × V) → List (String × V) × Bool
  migrate_toml_value table t =
      if contains_key t "claude"
      then (t, false)
      else if not (contains_key t "backends") && not (contains_key t "defaults")
      then (t, false)
      else (insert (without_old t) "claude" (table (claude_table t)), true)
