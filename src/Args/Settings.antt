-- ===== src/Args/Settings.antt =====
-- src/config/claude_settings.rs: the settings that add environment variables and flags.
-- `values` is the hash map from a setting to its value; there is one setting.
pub mod Laws
use anycode.Base.{
  String, Bool, true, false, not, ◌||◌, Option, none, some, List, [], ◌∷◌, ◌++◌, find, str_eq,
  if◌then◌else◌,
}

pub data SettingId : Type 0 where
  agents : SettingId

pub data SettingSection : Type 0 where
  experimental : SettingSection

pub record SettingDef : Type 0 where
  pub id : SettingId
  pub label : String
  pub description : String
  pub section : SettingSection
  pub env_var : Option String
  pub env_value : String
  pub cli_flag : Option String
  pub default : Bool

abbrev pub as_str : SettingId → String
as_str agents = "agents"

abbrev pub parse : String → Option SettingId
parse s = if str_eq s "agents" then some agents else none

-- Equality of ids.
abbrev pub same_id : SettingId → SettingId → Bool
same_id agents agents = true

abbrev pub builtin_registry : List SettingDef
builtin_registry =
    record {
      id = agents;
      label = "Agent Teams";
      description = "Enable multi-agent collaboration (experimental)";
      section = experimental;
      env_var = some "CLAUDE_CODE_EXPERIMENTAL_AGENT_TEAMS";
      env_value = "1";
      cli_flag = none;
      default = false;
    }
    ∷ []

pub record ClaudeSettingsManager : Type 0 where
  pub registry : List SettingDef
  pub values : SettingId → Option Bool

abbrev pub new : ClaudeSettingsManager
new = record { registry = builtin_registry; values = λ _. none }

abbrev default_of : Option SettingDef → Bool
default_of none = false
default_of (some d) = d.default

unfoldable pub default_for : ClaudeSettingsManager → SettingId → Bool
default_for m id = default_of (find (λ d. same_id d.id id) m.registry)

abbrev value_or : Option Bool → Bool → Bool
value_or none b = b
value_or (some v) b = v

unfoldable pub get : ClaudeSettingsManager → SettingId → Bool
unfolding default_for
get m id = value_or (m.values id) (default_for m id)

unfoldable pub set : ClaudeSettingsManager → SettingId → Bool → ClaudeSettingsManager
set m id value = record m { values = λ j. if same_id j id then some value else m.values j }

unfoldable pub toggle : ClaudeSettingsManager → SettingId → ClaudeSettingsManager
unfolding get set
toggle m id = set m id (not (get m id))

-- Equality of Booleans.
abbrev pub same_value : Bool → Bool → Bool
same_value true b = b
same_value false b = not b

abbrev env_of : Option String → String → List (String × String)
env_of none v = []
env_of (some k) v = (k, v) ∷ []

env_vars_of : ClaudeSettingsManager → List SettingDef → List (String × String)
env_vars_of m [] = []
env_vars_of m (d ∷ ds) =
    (if get m d.id then env_of d.env_var d.env_value else []) ++ env_vars_of m ds

unfoldable pub to_env_vars : ClaudeSettingsManager → List (String × String)
unfolding env_vars_of get
to_env_vars m = env_vars_of m m.registry

abbrev args_of : Option String → List String
args_of none = []
args_of (some f) = f ∷ []

cli_args_of : ClaudeSettingsManager → List SettingDef → List String
cli_args_of m [] = []
cli_args_of m (d ∷ ds) = (if get m d.id then args_of d.cli_flag else []) ++ cli_args_of m ds

unfoldable pub to_cli_args : ClaudeSettingsManager → List String
unfolding cli_args_of get
to_cli_args m = cli_args_of m m.registry

toml_map_of : ClaudeSettingsManager → List SettingDef → List (String × Bool)
toml_map_of m [] = []
toml_map_of m (d ∷ ds) = (as_str d.id, get m d.id) ∷ toml_map_of m ds

unfoldable pub to_toml_map : ClaudeSettingsManager → List (String × Bool)
unfolding toml_map_of get
to_toml_map m = toml_map_of m m.registry

abbrev load_one : ClaudeSettingsManager → Option SettingId → Bool → ClaudeSettingsManager
load_one m none v = m
load_one m (some id) v = set m id v

-- The entries of the map, in some order.
unfoldable pub load_from_toml : ClaudeSettingsManager → List (String × Bool) → ClaudeSettingsManager
unfolding set
load_from_toml m [] = m
load_from_toml m ((k, v) ∷ rest) = load_from_toml (load_one m (parse k) v) rest

-- `saved` is the map that `snapshot_values` made.
abbrev dirty_in : ClaudeSettingsManager → (SettingId → Option Bool) → List SettingDef → Bool
dirty_in m saved [] = false
dirty_in m saved (d ∷ ds) =
    not (same_value (get m d.id) (value_or (saved d.id) d.default)) || dirty_in m saved ds

unfoldable pub is_dirty : ClaudeSettingsManager → (SettingId → Option Bool) → Bool
unfolding get
is_dirty m saved = dirty_in m saved m.registry

pub record SettingsFieldSnapshot : Type 0 where
  pub id : SettingId
  pub label : String
  pub description : String
  pub section : SettingSection
  pub value : Bool

abbrev snapshots_of : ClaudeSettingsManager → List SettingDef → List SettingsFieldSnapshot
snapshots_of m [] = []
snapshots_of m (d ∷ ds) =
    record {
      id = d.id;
      label = d.label;
      description = d.description;
      section = d.section;
      value = get m d.id;
    }
    ∷ snapshots_of m ds

unfoldable pub to_snapshots : ClaudeSettingsManager → List SettingsFieldSnapshot
to_snapshots m = snapshots_of m m.registry

unfoldable pub apply_snapshots :
    ClaudeSettingsManager → List SettingsFieldSnapshot → ClaudeSettingsManager
unfolding set
apply_snapshots m [] = m
apply_snapshots m (f ∷ fields) = apply_snapshots (set m f.id f.value) fields

abbrev values_of :
    ClaudeSettingsManager → List SettingDef → (SettingId → Option Bool) → SettingId → Option Bool
values_of m [] saved = saved
values_of m (d ∷ ds) saved =
    values_of m ds (λ j. if same_id j d.id then some (get m d.id) else saved j)

unfoldable pub snapshot_values : ClaudeSettingsManager → SettingId → Option Bool
unfolding get
snapshot_values m = values_of m m.registry (λ j. none)
