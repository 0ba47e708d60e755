-- ===== src/Args/Tests.antt =====
-- The argument pipeline on a concrete command line.
use anycode.Base.{String, ◌≡◌, refl, true, false, none, some, List, [], ◌∷◌, ◌++◌, if◌then◌else◌}
use anycode.Args.Registry.{flag_registry}
use anycode.Args.Settings
use anycode.Args.Settings.{agents, builtin_registry, to_cli_args}
use anycode.Args.Classifier.{ClassifiedArg, intercepted, positional, classify}
use anycode.Args.Classifier.Leak.{
  Forwardable, from_passthrough-Forwardable, flag_registry-IsCoherent,
}
use anycode.Args.Session.{resolve_session}
use anycode.Args.Session.Laws.{chosen, last_id, any_continue, resolve_session-chosen}
use anycode.Args.Assembler.{from_passthrough}
use anycode.Args.Pipeline.{Inputs, build_spawn_params, is_copilot, session}
use anycode.Args.Pipeline.Laws.{
  resumes, session_flag, last_value, claude_names, NoValue, own_args, shim_args, hook_args,
  build_spawn_params-claude_credentials, build_spawn_params-copilot_credentials,
  build_spawn_params-args,
}

abbrev command_line : List String
command_line = "-m" ∷ "opus" ∷ "--resume" ∷ "abc" ∷ "hello" ∷ "--session-id" ∷ "def" ∷ []

abbrev seen : List ClassifiedArg
seen =
    intercepted "--resume" (some "abc")
    ∷ positional "hello"
    ∷ intercepted "--session-id" (some "def")
    ∷ intercepted "--continue" none
    ∷ []

abbrev claude : Inputs
claude = record {
  raw_args = command_line;
  proxy_url = "http://127.0.0.1:4000/claude/p";
  proxy_env_var = "ANTHROPIC_BASE_URL";
  command = "claude";
  session_token = "t0";
  settings = Settings.new;
  shim = some (record { dir_path = "/tmp/shim"; current_path = "/usr/bin" });
  proxy_port = some 4000;
  is_passthrough = false;
  copilot_provider_type = "anthropic";
  last_session = none;
  uuid = "u";
  host = record { copilot_model = none; copilot_provider_model_id = none; copilot_home = none };
}

abbrev copilot : Inputs
copilot = record claude { proxy_env_var = "COPILOT_API_URL"; copilot_provider_type = "openai" }

-- An intercepted flag with its value behind `=` is forwarded.
equals_test :
    (from_passthrough (classify ("--resume=abc" ∷ []) flag_registry).args).args
    ≡ "--resume=abc" ∷ []
unfolding from_passthrough classify
equals_test = refl

from_passthrough-Forwardable_example :
    Forwardable flag_registry (from_passthrough (classify command_line flag_registry).args).args
from_passthrough-Forwardable_example =
    from_passthrough-Forwardable flag_registry command_line flag_registry-IsCoherent

resolve_session-chosen_example :
    ((resolve_session none "u" seen).session_id
      ≡ (chosen (last_id seen) (any_continue seen) none "u").0)
    × ((resolve_session none "u" seen).source
        ≡ (chosen (last_id seen) (any_continue seen) none "u").1)
resolve_session-chosen_example = resolve_session-chosen none "u" seen

build_spawn_params-claude_credentials_example :
    (last_value "ANTHROPIC_AUTH_TOKEN" (build_spawn_params claude).env ≡ some "anycode-proxy")
    × (last_value "ANTHROPIC_API_KEY" (build_spawn_params claude).env ≡ some "")
    × (last_value "ANTHROPIC_CUSTOM_HEADERS" (build_spawn_params claude).env
        ≡ some "x-session-token:t0")
    × (last_value "ANTHROPIC_BASE_URL" (build_spawn_params claude).env
        ≡ some "http://127.0.0.1:4000/claude/p")
build_spawn_params-claude_credentials_example =
    build_spawn_params-claude_credentials claude refl refl

build_spawn_params-copilot_credentials_example :
    (last_value "COPILOT_PROVIDER_API_KEY" (build_spawn_params copilot).env ≡ some "t0")
    × (last_value "COPILOT_PROVIDER_BASE_URL" (build_spawn_params copilot).env
        ≡ some "http://127.0.0.1:4000/claude/p")
    × (last_value "COPILOT_OFFLINE" (build_spawn_params copilot).env ≡ some "true")
    × NoValue (build_spawn_params copilot).env claude_names
build_spawn_params-copilot_credentials_example =
    build_spawn_params-copilot_credentials copilot refl refl

build_spawn_params-args_example :
    (build_spawn_params claude).args
    ≡ own_args claude
      ++ (session_flag
            (is_copilot claude)
            (resumes (session claude).source)
            (session claude).session_id
          ++ (to_cli_args claude.settings
              ++ (if is_copilot claude
                  then []
                  else shim_args claude.shim ++ hook_args claude.proxy_port)))
build_spawn_params-args_example = build_spawn_params-args claude

abbrev switched_on : Settings.ClaudeSettingsManager
switched_on = record Settings.new { values = λ id. some true }
