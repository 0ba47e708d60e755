-- ===== src/Args/Pipeline/Laws.antt =====
-- What the child process is given: its session flag and its credentials.
use anycode.Base.{
  ◌||◌, ℕ, String, ◌<>◌, ◌≡◌, refl, Bool, true, false, Option, none, some, List, [], ◌∷◌, ◌++◌,
  arith, str_eq, if◌then◌else◌, append_assoc, append-nil, ap, ◌∙◌, Bool-cases, inl, inr,
}
use anycode.Args.Classifier.Leak.{copilot_mode-from_passthrough}
use anycode.Args.Settings.{ClaudeSettingsManager, builtin_registry, to_env_vars, to_cli_args}
use anycode.Args.Env
use anycode.Args.Env.{EnvSet, Host, TeammateShim, path_env}
use anycode.Args.Assembler
use anycode.Base.Decimal.{decimal_u16}
use anycode.Args.Session.{
  SessionSource, explicit_id, resume_id, continue_last, generated, SessionResolution,
}
use anycode.Args.Assembler.{SessionMode, ArgAssembler, session_args, from_passthrough, copilot_mode}
use anycode.Args.Pipeline.{
  Inputs, mode_of, is_copilot, classified, session, base_args, start_env, with_port,
  build_spawn_params,
}

-- The value that the child sees: a later assignment replaces an earlier one.
abbrev pub last_value : String → List (String × String) → Option String
last_value name [] = none
last_value name ((k, v) ∷ rest) = elim (last_value name rest) [
  | some w ↦ some w
  | none ↦ (if str_eq k name then some v else none)
]

abbrev or_value : Option String → Option String → Option String
or_value none o = o
or_value (some v) o = some v

last_value-append :
    (name : String) (xs ys : List (String × String))
    → last_value name (xs ++ ys) ≡ or_value (last_value name ys) (last_value name xs)
last_value-append name [] ys = ground arith
last_value-append name ((k, v) ∷ xs) ys = ground (arith, last_value-append name xs ys)

-- The names that neither the settings nor the shim assign.
abbrev Untouched : String → Type 0
Untouched name =
    (str_eq "CLAUDE_CODE_EXPERIMENTAL_AGENT_TEAMS" name ≡ false) × (str_eq "PATH" name ≡ false)

settings-Untouched :
    (name : String) (m : ClaudeSettingsManager)
    → Untouched name
    → m.registry ≡ builtin_registry
    → last_value name (to_env_vars m) ≡ none
unfolding to_env_vars
settings-Untouched name m u e = rw e (ground arith)

-- Settings and shim leave the other variables as they are.
tail-Untouched :
    (name : String) (e : EnvSet) (m : ClaudeSettingsManager) (shim : Option TeammateShim)
    → Untouched name
    → m.registry ≡ builtin_registry
    → last_value name (Env.with_shim (Env.with_settings e m) shim).vars ≡ last_value name e.vars
unfolding Env.with_shim Env.with_settings
tail-Untouched name e m none u h =
    last_value-append name e.vars (to_env_vars m) ∙ rw (settings-Untouched name m u h) refl
tail-Untouched name e m (some s) u h =
    last_value-append name (e.vars ++ to_env_vars m) (path_env s ∷ [])
    ∙ rw (u.1, last_value-append name e.vars (to_env_vars m), settings-Untouched name m u h) refl

build_spawn_params-value :
    (i : Inputs) (name : String)
    → Untouched name
    → i.settings.registry ≡ builtin_registry
    → last_value name (build_spawn_params i).env ≡ last_value name (start_env i).vars
unfolding build_spawn_params
build_spawn_params-value i name u h = tail-Untouched name (start_env i) i.settings i.shim u h

abbrev claude_vars : Inputs → List (String × String)
claude_vars i =
    ("ANTHROPIC_BASE_URL", i.proxy_url)
    ∷ ((if i.is_passthrough
          then []
          else ("ANTHROPIC_AUTH_TOKEN", "anycode-proxy") ∷ ("ANTHROPIC_API_KEY", "") ∷ [])
        ++ ("ANTHROPIC_CUSTOM_HEADERS", "x-session-token:" <> i.session_token) ∷ [])

start_env-claude :
    (i : Inputs) → i.proxy_env_var ≡ "ANTHROPIC_BASE_URL" → (start_env i).vars ≡ claude_vars i
unfolding start_env Env.with_proxy_url_for_mode Env.with_auth_bypass Env.with_session_token
start_env-claude i e = elim (Bool-cases i.is_passthrough) [
  | inl b ↦ rw (e, b) refl
  | inr b ↦ rw (e, b) refl
]

-- Outside Copilot mode, with the built-in settings: unless the backend passes credentials through,
-- the child sees the placeholder token and an empty API key; if it does, neither is touched. In both
-- cases the session token goes in the custom headers, and the proxy is the base URL.
pub build_spawn_params-claude_credentials :
    (i : Inputs)
    → i.proxy_env_var ≡ "ANTHROPIC_BASE_URL"
    → i.settings.registry ≡ builtin_registry
    → (last_value "ANTHROPIC_AUTH_TOKEN" (build_spawn_params i).env
        ≡ (if i.is_passthrough then none else some "anycode-proxy"))
      × (last_value "ANTHROPIC_API_KEY" (build_spawn_params i).env
          ≡ (if i.is_passthrough then none else some ""))
      × (last_value "ANTHROPIC_CUSTOM_HEADERS" (build_spawn_params i).env
          ≡ some ("x-session-token:" <> i.session_token))
      × (last_value "ANTHROPIC_BASE_URL" (build_spawn_params i).env ≡ some i.proxy_url)
build_spawn_params-claude_credentials i e h =
    let value = λ (name : String) (u : Untouched name).
      build_spawn_params-value i name u h ∙ ap (last_value name) (start_env-claude i e) in
    elim (Bool-cases i.is_passthrough) [
      | inl b ↦ (
        value "ANTHROPIC_AUTH_TOKEN" (refl, refl) ∙ rw b refl,
        value "ANTHROPIC_API_KEY" (refl, refl) ∙ rw b refl,
        value "ANTHROPIC_CUSTOM_HEADERS" (refl, refl) ∙ rw b refl,
        value "ANTHROPIC_BASE_URL" (refl, refl) ∙ rw b refl,
      )
      | inr b ↦ (
        value "ANTHROPIC_AUTH_TOKEN" (refl, refl) ∙ rw b refl,
        value "ANTHROPIC_API_KEY" (refl, refl) ∙ rw b refl,
        value "ANTHROPIC_CUSTOM_HEADERS" (refl, refl) ∙ rw b refl,
        value "ANTHROPIC_BASE_URL" (refl, refl) ∙ rw b refl,
      )
    ]

-- The names of the Claude-only variables.
abbrev pub claude_names : List String
claude_names =
    "ANTHROPIC_AUTH_TOKEN" ∷ "ANTHROPIC_API_KEY" ∷ "ANTHROPIC_CUSTOM_HEADERS" ∷ "ANTHROPIC_BASE_URL"
    ∷ []

abbrev pub NoValue : List (String × String) → List String → Type 0
NoValue env [] = Unit
NoValue env (n ∷ ns) = (last_value n env ≡ none) × NoValue env ns

abbrev CopilotValues : String → String → List (String × String) → Type 0
CopilotValues url token env =
    (last_value "COPILOT_PROVIDER_API_KEY" env ≡ some token)
    × (last_value "COPILOT_PROVIDER_BASE_URL" env ≡ some url)
    × (last_value "COPILOT_OFFLINE" env ≡ some "true")
    × NoValue env claude_names

push_provider-values :
    (url token ptype : String) (wire : Option String) (chosen : Bool) (home : Option String)
    → CopilotValues url token (Env.push_provider Env.new url token ptype wire chosen home).vars
unfolding Env.push_provider
push_provider-values url token ptype none true none = ground arith
push_provider-values url token ptype none true (some h) = ground arith
push_provider-values url token ptype none false none = ground arith
push_provider-values url token ptype none false (some h) = ground arith
push_provider-values url token ptype (some w) true none = ground arith
push_provider-values url token ptype (some w) true (some h) = ground arith
push_provider-values url token ptype (some w) false none = ground arith
push_provider-values url token ptype (some w) false (some h) = ground arith

start_env-copilot :
    (i : Inputs)
    → i.proxy_env_var ≡ "COPILOT_API_URL"
    → CopilotValues i.proxy_url i.session_token (start_env i).vars
unfolding start_env Env.with_copilot_env
start_env-copilot i e = rw e (
    push_provider-values i.proxy_url i.session_token (Env.provider_of i.copilot_provider_type).0
      (Env.provider_of i.copilot_provider_type).1
      (Env.is_set i.host.copilot_model || Env.is_set i.host.copilot_provider_model_id)
      i.host.copilot_home)

-- In Copilot mode, with the built-in settings: the child gets the session token as the provider's
-- API key and the proxy as the provider's address, is offline, and none of the Claude variables is
-- set, whatever the provider type.
pub build_spawn_params-copilot_credentials :
    (i : Inputs)
    → i.proxy_env_var ≡ "COPILOT_API_URL"
    → i.settings.registry ≡ builtin_registry
    → (last_value "COPILOT_PROVIDER_API_KEY" (build_spawn_params i).env ≡ some i.session_token)
      × (last_value "COPILOT_PROVIDER_BASE_URL" (build_spawn_params i).env ≡ some i.proxy_url)
      × (last_value "COPILOT_OFFLINE" (build_spawn_params i).env ≡ some "true")
      × NoValue (build_spawn_params i).env claude_names
build_spawn_params-copilot_credentials i e h =
    let value = λ (name : String) (u : Untouched name). build_spawn_params-value i name u h in
    let (key, url, offline, (token, (api, (headers, (base, done))))) = start_env-copilot i e in
    (
      value "COPILOT_PROVIDER_API_KEY" (refl, refl) ∙ key,
      value "COPILOT_PROVIDER_BASE_URL" (refl, refl) ∙ url,
      value "COPILOT_OFFLINE" (refl, refl) ∙ offline,
      (
        value "ANTHROPIC_AUTH_TOKEN" (refl, refl) ∙ token,
        (
          value "ANTHROPIC_API_KEY" (refl, refl) ∙ api,
          (
            value "ANTHROPIC_CUSTOM_HEADERS" (refl, refl) ∙ headers,
            (value "ANTHROPIC_BASE_URL" (refl, refl) ∙ base, tt),
          ),
        ),
      ),
    )

-- Whether a session is resumed, and the flag that says which one.
abbrev pub resumes : SessionSource → Bool
resumes resume_id = true
resumes continue_last = true
resumes explicit_id = false
resumes generated = false

abbrev pub session_flag : (copilot resumed : Bool) → String → List String
session_flag false false id = "--session-id" ∷ id ∷ []
session_flag false true id = "--resume" ∷ id ∷ []
session_flag true true id = ("--resume=" <> id) ∷ []
session_flag true false id = []

session_args-flag :
    (b : Bool) (id : String) (s : SessionSource)
    → session_args b id (mode_of s) ≡ session_flag b (resumes s) id
session_args-flag true id explicit_id = refl
session_args-flag true id resume_id = refl
session_args-flag true id continue_last = refl
session_args-flag true id generated = refl
session_args-flag false id explicit_id = refl
session_args-flag false id resume_id = refl
session_args-flag false id continue_last = refl
session_args-flag false id generated = refl

-- The hooks that call the proxy at a port when a subagent starts and when it stops.
abbrev pub hooks_at : String → String
hooks_at port =
    "{\"hooks\":{"
    <> (("\""
          <> ("SubagentStart"
              <> ("\":[{\"matcher\":\"\",\"hooks\":[{\"type\":\"command\",\"command\":"
                  <> ("\"curl -s -m 5 -X POST http://127.0.0.1:"
                      <> (port
                          <> ("/api/subagent-start"
                              <> " -d @- -H 'Content-Type: application/json'\"}]}]"))))))
        <> (","
            <> (("\""
                  <> ("SubagentStop"
                      <> ("\":[{\"matcher\":\"\",\"hooks\":[{\"type\":\"command\",\"command\":"
                          <> ("\"curl -s -m 5 -X POST http://127.0.0.1:"
                              <> (port
                                  <> ("/api/subagent-stop"
                                      <> " -d @- -H 'Content-Type: application/json'\"}]}]"))))))
                <> "}}")))

-- What the user's own arguments contribute.
abbrev pub own_args : Inputs → List String
own_args i = (from_passthrough (classified i).args).args

abbrev pub shim_args : Option TeammateShim → List String
shim_args none = []
shim_args (some _) = "--teammate-mode" ∷ "tmux" ∷ []

abbrev pub hook_args : Option ℕ → List String
hook_args none = []
hook_args (some port) = "--settings" ∷ hooks_at (decimal_u16 port) ∷ []

start_args :
    (i : Inputs)
    → copilot_mode (from_passthrough (classified i).args) (is_copilot i)
      ≡ record { args = own_args i; copilot_mode = is_copilot i }
unfolding copilot_mode
start_args i = go (is_copilot i)
  where
    go :
        (b : Bool)
        → copilot_mode (from_passthrough (classified i).args) b
          ≡ record { args = own_args i; copilot_mode = b }
    go true =
        ap (λ (t : List String). record { args = t; copilot_mode = true })
          (copilot_mode-from_passthrough i.raw_args)
    go false = refl

rest_args :
    (b : Bool) (shim : Option TeammateShim) (port : Option ℕ) (own : List String)
    (s : SessionResolution) (mode : SessionMode) (m : ClaudeSettingsManager)
    → (with_port
        (Assembler.with_teammate_mode
          (Assembler.with_settings
            (Assembler.with_session (record { args = own; copilot_mode = b }) s mode)
            m)
          shim)
        port).args
      ≡ own
        ++ (session_args b s.session_id mode
            ++ (to_cli_args m ++ (if b then [] else shim_args shim ++ hook_args port)))
unfolding Assembler.with_teammate_mode Assembler.with_settings Assembler.with_session
    Assembler.with_subagent_hooks
rest_args true none none own s mode m = simp (append_assoc, append-nil)
rest_args true none (some port) own s mode m = simp (append_assoc, append-nil)
rest_args true (some _) none own s mode m = simp (append_assoc, append-nil)
rest_args true (some _) (some port) own s mode m = simp (append_assoc, append-nil)
rest_args false none none own s mode m = simp (append_assoc, append-nil)
rest_args false none (some port) own s mode m = simp append_assoc
rest_args false (some _) none own s mode m = simp (append_assoc, append-nil)
rest_args false (some _) (some port) own s mode m = simp append_assoc

-- The arguments of the child: first those of the user that the classifier forwards, in both modes;
-- then the session's flag, which is `--resume` if a session is resumed, and otherwise `--session-id`,
-- or none in Copilot mode; then the settings' flags; and outside Copilot mode the teammate mode, if
-- there is a shim, and the two hooks, if the port is known.
pub build_spawn_params-args :
    (i : Inputs)
    → (build_spawn_params i).args
      ≡ own_args i
        ++ (session_flag (is_copilot i) (resumes (session i).source) (session i).session_id
            ++ (to_cli_args i.settings
                ++ (if is_copilot i then [] else shim_args i.shim ++ hook_args i.proxy_port)))
unfolding build_spawn_params
build_spawn_params-args i =
    rw (base_args, start_args i)
      (rest_args (is_copilot i) i.shim i.proxy_port (own_args i) (session i)
        (mode_of (session i).source) i.settings)
    ∙ ap
        (λ fs.
          own_args i
          ++ (fs
              ++ (to_cli_args i.settings
                  ++ (if is_copilot i then [] else shim_args i.shim ++ hook_args i.proxy_port))))
        (session_args-flag (is_copilot i) (session i).session_id (session i).source)
