-- ===== src/Config.antt =====
-- src/config/types.rs, src/config/credentials.rs: the profile of one command-line tool and its
-- backends. The pricing of a backend, two floats that only the metrics read, is left out.
pub mod Laws
pub mod Loader
mod Tests
mod LoaderTests
use anycode.Base.{
  ℕ, String, Bool, true, false, not, Option, none, some, List, [], ◌∷◌, ◌||◌, ltb, str_eq, is_some,
  if◌then◌else◌, ◌>>=◌,
}
use text.Mathlib.Text.{find?}

pub record Backend : Type 0 where
  pub name : String
  pub display_name : String
  pub base_url : String
  pub auth_type_str : String
  pub api_key : Option String
  pub thinking_compat : Option Bool
  pub thinking_budget_tokens : Option ℕ
  pub model_opus : Option String
  pub model_opus_max_effort : Option String
  pub model_sonnet : Option String
  pub model_sonnet_max_effort : Option String
  pub model_haiku : Option String
  pub model_haiku_max_effort : Option String
  pub models_path : Option String
  pub wire_api : Option String
  pub strip_request_prefix : Option String

pub record Defaults : Type 0 where
  pub active : String
  pub timeout_seconds : ℕ
  pub connect_timeout_seconds : ℕ
  pub idle_timeout_seconds : ℕ
  pub pool_idle_timeout_seconds : ℕ
  pub pool_max_idle_per_host : ℕ
  pub max_retries : ℕ
  pub retry_backoff_base_ms : ℕ

pub record AgentsConfig : Type 0 where
  pub teammate_backend : String
  pub subagent_backend : Option String

pub record CliProfile : Type 0 where
  pub defaults : Defaults
  pub backends : List Backend
  pub agents : Option AgentsConfig
  pub claude_settings : List (String × Bool)

abbrev pub default_backend : Backend
default_backend = record {
  name = "claude";
  display_name = "Claude";
  base_url = "https://api.anthropic.com";
  auth_type_str = "passthrough";
  api_key = none;
  thinking_compat = none;
  thinking_budget_tokens = none;
  model_opus = none;
  model_opus_max_effort = none;
  model_sonnet = none;
  model_sonnet_max_effort = none;
  model_haiku = none;
  model_haiku_max_effort = none;
  models_path = none;
  wire_api = none;
  strip_request_prefix = none;
}

abbrev pub default_defaults : Defaults
default_defaults = record {
  active = "claude";
  timeout_seconds = 30;
  connect_timeout_seconds = 5;
  idle_timeout_seconds = 60;
  pool_idle_timeout_seconds = 90;
  pool_max_idle_per_host = 8;
  max_retries = 3;
  retry_backoff_base_ms = 100;
}

pub data AuthType : Type 0 where
  api_key bearer passthrough : AuthType

-- `AuthType::parse`; `lower` is `str::to_lowercase`.
unfoldable pub parse_auth_type : (String → String) → String → AuthType
parse_auth_type lower s =
    if str_eq (lower s) "api_key"
    then api_key
    else if str_eq (lower s) "bearer"
    then bearer
    else passthrough

abbrev pub uses_own_credentials : AuthType → Bool
uses_own_credentials api_key = true
uses_own_credentials bearer = true
uses_own_credentials passthrough = false

pub data CredentialStatus : Type 0 where
  configured : String → CredentialStatus
  unconfigured : String → CredentialStatus
  no_auth : CredentialStatus

abbrev key_status : Option String → CredentialStatus
key_status none = unconfigured "api_key is not set"
key_status (some key) =
    if not (str_eq key "") then configured key else unconfigured "api_key is not set"

abbrev status_for : AuthType → Option String → CredentialStatus
status_for passthrough key = no_auth
status_for api_key key = key_status key
status_for bearer key = key_status key

unfoldable pub resolve_credential : (String → String) → Backend → CredentialStatus
unfolding parse_auth_type
resolve_credential lower b = status_for (parse_auth_type lower b.auth_type_str) b.api_key

abbrev pub is_resolved : CredentialStatus → Bool
is_resolved (configured _) = true
is_resolved (unconfigured _) = false
is_resolved no_auth = true

unfoldable pub is_configured : (String → String) → Backend → Bool
unfolding resolve_credential
is_configured lower b = is_resolved (resolve_credential lower b)

-- `str::contains`
abbrev pub contains : String → String → Bool
contains s t = is_some (find? s t)

unfoldable pub needs_thinking_compat : Backend → Bool
needs_thinking_compat b = elim b.thinking_compat [
  | some v ↦ v
  | none ↦ not (contains b.base_url "anthropic.com")
]

-- The choice by model family that `resolve_model` and `cap_effort` share.
abbrev by_family {ℓ} : {A : Type ℓ} → String → A → A → A → A → A
by_family model opus sonnet haiku other =
    if contains model "opus"
    then opus
    else if contains model "sonnet"
    then sonnet
    else if contains model "haiku"
    then haiku
    else other

unfoldable pub resolve_model : Backend → String → Option String
resolve_model b original = by_family original b.model_opus b.model_sonnet b.model_haiku none

unfoldable pub effort_rank : String → ℕ
effort_rank effort =
    if str_eq effort "low"
    then 0
    else if str_eq effort "medium"
    then 1
    else if str_eq effort "high"
    then 2
    else if str_eq effort "xhigh"
    then 3
    else 0

abbrev pub max_effort : Backend → String → Option String
max_effort b model =
    by_family model b.model_opus_max_effort b.model_sonnet_max_effort b.model_haiku_max_effort none

unfoldable pub cap_effort : Backend → String → String → Option String
cap_effort b request_effort original_model = max_effort b original_model >>= λ limit.
    if ltb (effort_rank limit) (effort_rank request_effort) then some limit else none
