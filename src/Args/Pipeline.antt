-- ===== src/Args/Pipeline.antt =====
-- src/args/pipeline.rs: all stages together.
pub mod Laws
use anycode.Base.{
  ℕ, String, Bool, true, false, Option, none, some, List, [], ◌∷◌, ◌++◌, str_eq, if◌then◌else◌,
}
use anycode.Args.Registry.{flag_registry}
use anycode.Args.Classifier.{classify, ClassifyResult}
use anycode.Args.Session.{
  SessionSource, explicit_id, resume_id, continue_last, generated, SessionResolution,
  resolve_session,
}
use anycode.Args.Settings.{ClaudeSettingsManager}
use anycode.Args.Env
use anycode.Args.Env.{EnvSet, Host, TeammateShim}
use anycode.Args.Assembler
use anycode.Args.Assembler.{ArgAssembler, SessionMode, initial, resume}

-- The arguments of `build_spawn_params`, with what the stages read from outside.
pub record Inputs : Type 0 where
  pub raw_args : List String
  pub proxy_url : String
  pub proxy_env_var : String
  pub command : String
  pub session_token : String
  pub settings : ClaudeSettingsManager
  pub shim : Option TeammateShim
  pub proxy_port : Option ℕ
  pub is_passthrough : Bool
  pub copilot_provider_type : String
  pub last_session : Option String
  pub uuid : String
  pub host : Host

pub record SpawnParams : Type 0 where
  pub command : String
  pub args : List String
  pub env : List (String × String)
  pub session_id : String
  pub warnings : List String

abbrev pub mode_of : SessionSource → SessionMode
mode_of continue_last = resume
mode_of resume_id = resume
mode_of explicit_id = initial
mode_of generated = initial

abbrev pub is_copilot : Inputs → Bool
is_copilot i = str_eq i.proxy_env_var "COPILOT_API_URL"

abbrev pub classified : Inputs → ClassifyResult
classified i = classify i.raw_args flag_registry

abbrev pub session : Inputs → SessionResolution
session i = resolve_session i.last_session i.uuid (classified i).args

-- Stage 3, the part that depends on the mode.
pub start_env : Inputs → EnvSet
start_env i =
    if is_copilot i
    then Env.with_copilot_env Env.new i.host i.proxy_url i.session_token i.copilot_provider_type
    else Env.with_session_token
        (Env.with_auth_bypass (Env.with_proxy_url_for_mode Env.new i.proxy_url i.proxy_env_var)
          i.is_passthrough)
        i.session_token

-- Stage 3, up to the shim.
pub base_env : Inputs → EnvSet
base_env i = Env.with_shim (Env.with_settings (start_env i) i.settings) i.shim

abbrev with_port : ArgAssembler → Option ℕ → ArgAssembler
with_port a none = a
with_port a (some port) = Assembler.with_subagent_hooks a port

-- Stage 4, up to the hooks.
pub base_args : Inputs → ArgAssembler
base_args i =
    let start =
      Assembler.copilot_mode (Assembler.from_passthrough (classified i).args) (is_copilot i) in
    let sessioned = Assembler.with_session start (session i) (mode_of (session i).source) in
    let complete =
      Assembler.with_teammate_mode (Assembler.with_settings sessioned i.settings) i.shim in
    with_port complete i.proxy_port

unfoldable pub build_spawn_params : Inputs → SpawnParams
unfolding base_env base_args
build_spawn_params i = record {
  command = i.command;
  args = (base_args i).args;
  env = (base_env i).vars;
  session_id = (session i).session_id;
  warnings = (classified i).warnings ++ (session i).warnings;
}

unfoldable pub build_restart_params : Inputs → List (String × String) → List String → SpawnParams
unfolding base_env base_args
build_restart_params i extra_env extra_args = record {
  command = i.command;
  args = (Assembler.with_extra (base_args i) extra_args).args;
  env = (Env.with_extra (base_env i) extra_env).vars;
  session_id = (session i).session_id;
  warnings = (classified i).warnings ++ (session i).warnings;
}
