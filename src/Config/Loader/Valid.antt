-- ===== src/Config/Loader/Valid.antt =====
-- A profile that was validated starts the backend state (src/config/loader.rs with
-- src/backend/state.rs).
use anycode.Base.{
  ℕ, String, ◌<>◌, ◌≡◌, ◌≢◌, refl, sym, ap, ◌∙◌, Bool, true, false, not, Option, none, some, List,
  [], ◌∷◌, any, find, arith, str_eq_iff, if◌then◌else◌,
}
use mathlib.Core.Option.{some-injective}
use anycode.Config.{Backend, CliProfile, AgentsConfig, is_configured}
use anycode.Config.Loader.{
  CliMode, Config, profile, ok, validation_error, is_empty, names, in_profile, not_found,
  check_subagent, check_agents, check_active, no_backends, validate_for,
}
use anycode.Backend.State
use anycode.Backend.State.{BackendStateInner, has_backend, fresh, from_config, from_backends}

-- The backends that the settings for agents name are among those of the profile.
pub data AgentsKnown (bs : List Backend) : Option AgentsConfig → Type 0 where
  no_agents : AgentsKnown bs none
  known :
      {a : AgentsConfig}
      → has_backend a.teammate_backend bs ≡ true
      → ((id : String) → a.subagent_backend ≡ some id → has_backend id bs ≡ true)
      → AgentsKnown bs (some a)

check_subagent-known :
    (mode : CliMode) (bs : List Backend) (o : Option String)
    → check_subagent mode bs o ≡ ok
    → (id : String) → o ≡ some id
    → has_backend id bs ≡ true
check_subagent-known mode bs none h id e = cc
check_subagent-known mode bs (some sb) h id e = go (any (names sb) bs) refl h
  where
    go :
        (t : Bool)
        → any (names sb) bs ≡ t
        → (if not t then not_found mode "agents.subagent_backend" sb else ok) ≡ ok
        → has_backend id bs ≡ true
    go true f g = ap (λ i. has_backend i bs) (sym (some-injective sb id e)) ∙ f
    go false f g = cc

check_agents-known :
    (mode : CliMode) (bs : List Backend) (o : Option AgentsConfig)
    → check_agents mode bs o ≡ ok
    → AgentsKnown bs o
check_agents-known mode bs none h = no_agents
check_agents-known mode bs (some a) h = go (any (names a.teammate_backend) bs) refl h
  where
    go :
        (t : Bool)
        → any (names a.teammate_backend) bs ≡ t
        → (if not t
            then not_found mode "agents.teammate_backend" a.teammate_backend
            else check_subagent mode bs a.subagent_backend)
          ≡ ok
        → AgentsKnown bs (some a)
    go true e f = known e (check_subagent-known mode bs a.subagent_backend f)
    go false e f = cc

-- What a validated profile promises: its active backend is the first of that name and is
-- configured, agents use known backends, and the backend state starts with the active backend.
pub record Startable (lower : String → String) (now : ℕ) (cached : Bool) (p : CliProfile)
    : Type 0 where
  pub active : Backend
  pub first : find (names p.defaults.active) p.backends ≡ some active
  pub configured : is_configured lower active ≡ true
  pub agents : AgentsKnown p.backends p.agents
  pub starts : from_config now cached p ≡ State.ok (fresh now p p.defaults.active cached)

find-has_backend :
    (id : String) (bs : List Backend) (b : Backend)
    → find (names id) bs ≡ some b
    → has_backend id bs ≡ true
find-has_backend id [] b e = cc
find-has_backend id (c ∷ bs) b e = ground (arith, find-has_backend id bs b)

starts_active :
    (now : ℕ) (cached : Bool) (p : CliProfile) (bs : List Backend)
    → p.defaults.active ≢ ""
    → has_backend p.defaults.active bs ≡ true
    → from_backends now p cached bs ≡ State.ok (fresh now p p.defaults.active cached)
starts_active now cached p [] ne h = cc
starts_active now cached p (b ∷ bs) ne h = ground (arith, str_eq_iff p.defaults.active "")

check_active-Startable :
    (lower : String → String) (now : ℕ) (cached : Bool) (mode : CliMode) (p : CliProfile)
    → p.defaults.active ≢ ""
    → (o : Option Backend) → find (names p.defaults.active) p.backends ≡ o
    → check_active lower mode p o ≡ ok
    → Startable lower now cached p
unfolding from_config
check_active-Startable lower now cached mode p ne none e h = cc
check_active-Startable lower now cached mode p ne (some b) e h = go (is_configured lower b) refl h
  where
    go :
        (t : Bool)
        → is_configured lower b ≡ t
        → (if not t
            then validation_error (
                in_profile mode
                  ("Active backend '" <> (b.name <> "' is not configured — set api_key in config")))
            else check_agents mode p.backends p.agents)
          ≡ ok
        → Startable lower now cached p
    go true f g = record {
      active = b;
      first = e;
      configured = f;
      agents = check_agents-known mode p.backends p.agents g;
      starts =
          starts_active now cached p p.backends ne
            (find-has_backend p.defaults.active p.backends b e);
    }
    go false f g = cc

-- A profile with backends and with a default that is not empty, once it has been validated: the
-- default names a backend that has its credentials, the settings for agents name backends of the
-- profile, and the backend state starts from it with the default as its active backend.
pub validate_for-Startable :
    (lower : String → String) (config : Config) (mode : CliMode) (now : ℕ) (cached : Bool)
    → is_empty (profile config mode).backends ≡ false
    → (profile config mode).defaults.active ≢ ""
    → validate_for lower config mode ≡ ok
    → Startable lower now cached (profile config mode)
unfolding validate_for
validate_for-Startable lower config mode now cached nonempty ne h =
    let p = profile config mode in
    check_active-Startable lower now cached mode p ne (find (names p.defaults.active) p.backends)
      refl
      (ap
          (λ t.
            if t
            then no_backends mode
            else check_active lower mode p (find (names p.defaults.active) p.backends))
          (sym nonempty)
        ∙ h)
