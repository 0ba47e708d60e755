-- ===== src/Args/Env.antt =====
-- src/args/env_builder.rs: the environment of the spawned process; src/shim/mod.rs: `path_env`.
use anycode.Base.{
  String, ◌<>◌, Bool, false, not, ◌||◌, Option, none, some, List, [], ◌∷◌, ◌++◌, str_eq,
  if◌then◌else◌,
}
use anycode.Args.Settings.{ClaudeSettingsManager, to_env_vars}

pub record EnvSet : Type 0 where
  pub vars : List (String × String)

-- What the builder reads from the parent process: the two model variables, and the directory
-- `.config/anycode/copilot-home` below the home directory.
pub record Host : Type 0 where
  pub copilot_model : Option String
  pub copilot_provider_model_id : Option String
  pub copilot_home : Option String

-- `TeammateShim::path_env`: the shim's directory, and the parent's PATH.
pub record TeammateShim : Type 0 where
  pub dir_path : String
  pub current_path : String

abbrev pub path_env : TeammateShim → String × String
path_env s = ("PATH", s.dir_path <> (":" <> s.current_path))

abbrev pub new : EnvSet
new = record { vars = [] }

abbrev pub push : EnvSet → String → String → EnvSet
push e name value = record { vars = e.vars ++ (name, value) ∷ [] }

unfoldable pub with_proxy_url_for_mode : EnvSet → String → String → EnvSet
with_proxy_url_for_mode e url proxy_env_var = push e proxy_env_var url

unfoldable pub with_auth_bypass : EnvSet → Bool → EnvSet
with_auth_bypass e is_passthrough =
    if is_passthrough
    then e
    else push (push e "ANTHROPIC_AUTH_TOKEN" "anycode-proxy") "ANTHROPIC_API_KEY" ""

unfoldable pub with_session_token : EnvSet → String → EnvSet
with_session_token e token = push e "ANTHROPIC_CUSTOM_HEADERS" ("x-session-token:" <> token)

unfoldable pub with_settings : EnvSet → ClaudeSettingsManager → EnvSet
with_settings e settings = record { vars = e.vars ++ to_env_vars settings }

unfoldable pub with_shim : EnvSet → Option TeammateShim → EnvSet
with_shim e none = e
with_shim e (some s) = record { vars = e.vars ++ path_env s ∷ [] }

-- The provider family and the wire protocol that `provider_type` stands for.
unfoldable pub provider_of : String → String × Option String
provider_of t =
    if str_eq t "anthropic"
    then ("anthropic", none)
    else if str_eq t "openai" || str_eq t "openai-completions"
    then ("openai", some "completions")
    else if str_eq t "openai-responses"
    then ("openai", some "responses")
    else if str_eq t "azure" || str_eq t "azure-completions"
    then ("azure", some "completions")
    else if str_eq t "azure-responses"
    then ("azure", some "responses")
    else ("anthropic", none)

abbrev pub is_set : Option String → Bool
is_set none = false
is_set (some v) = not (str_eq v "")

abbrev wire_model : Option String → String
wire_model none = "gpt-4o"
wire_model (some w) = if str_eq w "responses" then "gpt-5" else "gpt-4o"

abbrev default_model : String → Option String → String
default_model ptype wire = if str_eq ptype "anthropic" then "claude-sonnet-4-5" else wire_model wire

abbrev push_some : EnvSet → String → Option String → EnvSet
push_some e name none = e
push_some e name (some v) = push e name v

-- The pushes of `with_copilot_env`, by the provider, the wire protocol, whether the user has chosen a
-- model, and the directory for Copilot's data.
unfoldable pub push_provider :
    EnvSet → String → String → String → Option String → Bool → Option String → EnvSet
push_provider e proxy_url session_token ptype wire user_has_model home =
    let e1 = push e "COPILOT_OFFLINE" "true" in
    let e2 = push e1 "COPILOT_PROVIDER_BASE_URL" proxy_url in
    let e3 = push e2 "COPILOT_PROVIDER_TYPE" ptype in
    let e4 = push e3 "COPILOT_PROVIDER_API_KEY" session_token in
    let e5 = push_some e4 "COPILOT_PROVIDER_WIRE_API" wire in
    let e6 = if user_has_model then e5 else push e5 "COPILOT_MODEL" (default_model ptype wire) in
    push_some e6 "COPILOT_HOME" home

unfoldable pub with_copilot_env : EnvSet → Host → String → String → String → EnvSet
unfolding provider_of push_provider
with_copilot_env e host proxy_url session_token provider_type =
    let (ptype, wire) = provider_of provider_type in
    let user_has_model = is_set host.copilot_model || is_set host.copilot_provider_model_id in
    push_provider e proxy_url session_token ptype wire user_has_model host.copilot_home

unfoldable pub with_extra : EnvSet → List (String × String) → EnvSet
with_extra e extra = record { vars = e.vars ++ extra }
