-- ===== src/Backend/State.antt =====
-- `BackendState` (src/backend/state.rs). The lock makes each method one step: a method takes the
-- inner state and returns the new one. `now` is the time that the clock gives; `models_cached` says
-- whether the process-wide cache of src/proxy/models.rs holds a response.
pub mod Valid
pub mod Laws
use anycode.Base.{
  ℕ, String, Bool, true, false, not, Option, none, some, List, [], ◌∷◌, ◌++◌, map, any, find,
  str_eq, if◌then◌else◌,
}
use anycode.Config.{Backend, CliProfile}

pub data BackendError : Type 0 where
  backend_not_found : String → BackendError
  no_backends_configured : BackendError
  backend_not_configured : String → String → BackendError

pub record SwitchLogEntry : Type 0 where
  pub timestamp : ℕ
  pub old_backend : Option String
  pub new_backend : String

pub record BackendStateInner : Type 0 where
  pub active_backend : String
  pub config : CliProfile
  pub switch_log : List SwitchLogEntry
  pub models_cached : Bool

pub data Result {ℓ} (A : Type ℓ) : Type ℓ where
  ok : A → Result A
  err : BackendError → Result A

-- `backends.iter().any(|b| b.name == id)`
abbrev pub has_backend : String → List Backend → Bool
has_backend id bs = any (λ b. str_eq b.name id) bs

abbrev pub fresh : ℕ → CliProfile → String → Bool → BackendStateInner
fresh now config active cached = record {
  active_backend = active;
  config = config;
  switch_log = record { timestamp = now; old_backend = none; new_backend = active } ∷ [];
  models_cached = cached;
}

abbrev pub from_backends : ℕ → CliProfile → Bool → List Backend → Result BackendStateInner
from_backends now config cached [] = err no_backends_configured
from_backends now config cached (b ∷ bs) =
    if str_eq config.defaults.active ""
    then ok (fresh now config b.name cached)
    else if not (has_backend config.defaults.active (b ∷ bs))
    then err (backend_not_found config.defaults.active)
    else ok (fresh now config config.defaults.active cached)

-- The cache is outside the state: it starts as it is.
unfoldable pub from_config : ℕ → Bool → CliProfile → Result BackendStateInner
from_config now cached config = from_backends now config cached config.backends

abbrev pub found_or : String → Option Backend → Result Backend
found_or id none = err (backend_not_found id)
found_or id (some b) = ok b

unfoldable pub get_backend_config : BackendStateInner → String → Result Backend
get_backend_config s id = found_or id (find (λ b. str_eq b.name id) s.config.backends)

unfoldable pub get_active_backend_config : BackendStateInner → Result Backend
unfolding get_backend_config
get_active_backend_config s = get_backend_config s s.active_backend

abbrev pub validate_backend : BackendStateInner → String → Bool
validate_backend s id = has_backend id s.config.backends

abbrev pub list_backends : BackendStateInner → List String
list_backends s = map (λ b. b.name) s.config.backends

abbrev log_switch : ℕ → BackendStateInner → String → List SwitchLogEntry
log_switch now s new =
    s.switch_log
    ++ record { timestamp = now; old_backend = some s.active_backend; new_backend = new } ∷ []

-- The new state, and the error if there is one.
unfoldable pub switch_backend :
    ℕ → BackendStateInner → String → BackendStateInner × Option BackendError
switch_backend now s id =
    if not (has_backend id s.config.backends)
    then (s, some (backend_not_found id))
    else if str_eq s.active_backend id
    then (s, none)
    else (
      record s { switch_log = log_switch now s id; active_backend = id; models_cached = false },
      none,
    )

-- The backend that `update_config` falls back to: the default as it is written, or the first one.
abbrev pub new_active : CliProfile → Backend → String
new_active config first =
    if str_eq config.defaults.active "" then first.name else config.defaults.active

abbrev update_with :
    ℕ → BackendStateInner → CliProfile → List Backend → BackendStateInner × Option BackendError
update_with now s config [] = (s, some no_backends_configured)
update_with now s config (b ∷ bs) =
    if not (has_backend s.active_backend (b ∷ bs))
    then (
      record s {
        switch_log = log_switch now s (new_active config b);
        active_backend = new_active config b;
        config = config;
      },
      none,
    )
    else (record s { config = config }, none)

unfoldable pub update_config :
    ℕ → BackendStateInner → CliProfile → BackendStateInner × Option BackendError
update_config now s config = update_with now s config config.backends
