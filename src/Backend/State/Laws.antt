-- ===== src/Backend/State/Laws.antt =====
-- What the methods of the backend state do, in every state that they reach.
use anycode.Base.{
  if◌then◌else◌, ℕ, String, ◌≡◌, ◌≢◌, Bool, true, false, Option, none, some, List, ◌∷◌, arith,
  str_eq_iff, ap, ◌∙◌, subst,
}
use anycode.Config.{Backend, CliProfile}
use anycode.Backend.State.{
  BackendError, backend_not_found, BackendStateInner, ok, err, has_backend, from_config,
  get_backend_config, get_active_backend_config, switch_backend, update_config, log_switch,
  update_with, found_or,
}
use anycode.Backend.State.Valid.{
  last_logged, IsChain, IsValid, ValidResult, has_backend-find, find-none, str_eq_self,
  from_config-IsValid, switch_backend-IsValid, IsConsistent, update_config-IsValid,
}

-- The states that the methods reach.
pub data Reachable : BackendStateInner → Type 0 where
  started :
      (now : ℕ) (cached : Bool) (config : CliProfile) {s : BackendStateInner}
      → from_config now cached config ≡ ok s
      → Reachable s
  switched :
      (now : ℕ) (id : String) {s : BackendStateInner}
      → Reachable s
      → Reachable (switch_backend now s id).0
  updated :
      (now : ℕ) (config : CliProfile) {s : BackendStateInner}
      → IsConsistent config
      → Reachable s
      → Reachable (update_config now s config).0
  -- A request for the models fills the cache.
  refilled : {s : BackendStateInner} → Reachable s → Reachable (record s { models_cached = true })

Reachable-IsValid : (s : BackendStateInner) → Reachable s → IsValid s
Reachable-IsValid s (started now cached config e) =
    subst ValidResult e (from_config-IsValid now cached config)
Reachable-IsValid s (switched now id {s = t} r) =
    switch_backend-IsValid now t id (Reachable-IsValid t r)
Reachable-IsValid s (updated now config {s = t} c r) =
    update_config-IsValid now t config c (Reachable-IsValid t r)
Reachable-IsValid s (refilled {s = t} r) = filled (Reachable-IsValid t r)
  where
    filled : IsValid t → IsValid (record t { models_cached = true })
    filled h = record { configured = h.configured; logged = h.logged; chained = h.chained }

pub found_or-has_backend :
    (s : BackendStateInner) (id : String)
    → has_backend id s.config.backends ≡ true
    → (b : Backend) × (get_backend_config s id ≡ ok b) × (b.name ≡ id)
unfolding get_backend_config
found_or-has_backend s id h =
    let found = has_backend-find id s.config.backends h in
    (found.0, ap (found_or id) found.1, found.2)

-- In every state that start, switches, reloads of consistent configurations and model requests
-- reach, the active backend has a configuration under its own name, it is the last one that the
-- switch log names, and each entry of the log starts from the backend that the one before it
-- switched to.
pub active_available :
    (s : BackendStateInner)
    → Reachable s
    → ((b : Backend) × (get_active_backend_config s ≡ ok b) × (b.name ≡ s.active_backend))
      × (last_logged s.switch_log ≡ some s.active_backend)
      × IsChain s.switch_log
unfolding get_active_backend_config
active_available s r =
    let h = Reachable-IsValid s r in
    (found_or-has_backend s s.active_backend h.configured, h.logged, h.chained)

-- A switch reports an error exactly if the backend is not configured, and then leaves the state as it
-- was; otherwise the active configuration is the one that `get_backend_config` found for the backend.
-- Repeating it gives the same state and the same report.
pub switch_backend-get :
    (now later : ℕ) (s : BackendStateInner) (id : String)
    → ((switch_backend now s id).1
        ≡ (if has_backend id s.config.backends then none else some (backend_not_found id)))
      × ((if has_backend id s.config.backends then s else (switch_backend now s id).0) ≡ s)
      × (get_active_backend_config (switch_backend now s id).0 ≡ (
          if has_backend id s.config.backends
          then get_backend_config s id
          else get_active_backend_config s))
      × (switch_backend later (switch_backend now s id).0 id ≡ switch_backend now s id)
unfolding switch_backend get_active_backend_config get_backend_config
switch_backend-get now later s id = ground (arith, str_eq_self id, str_eq_iff s.active_backend id)

-- When neither the active backend nor the default, which is not empty, is among the new backends,
-- of which there is one, a reload succeeds and the active backend has no configuration after it.
pub update_config-dangling :
    (now : ℕ) (s : BackendStateInner) (config : CliProfile) (b : Backend) (bs : List Backend)
    → config.backends ≡ b ∷ bs
    → has_backend s.active_backend config.backends ≡ false
    → config.defaults.active ≢ ""
    → has_backend config.defaults.active config.backends ≡ false
    → ((update_config now s config).1 ≡ none)
      × (get_active_backend_config (update_config now s config).0
          ≡ err (backend_not_found config.defaults.active))
unfolding update_config get_active_backend_config get_backend_config
update_config-dangling now s config b bs e h k m =
    let reloaded : update_with now s config config.backends ≡ dangling s =
      ap (update_with now s config) e
      ∙ ground (arith, ap (has_backend s.active_backend) e, str_eq_iff config.defaults.active "") in
    (
      ap (λ r. r.1) reloaded,
      ap (λ r. get_active_backend_config r.0) reloaded
          ∙ ap (found_or config.defaults.active)
              (find-none config.defaults.active config.backends m),
    )
  where
    dangling : BackendStateInner → BackendStateInner × Option BackendError
    dangling t = (
      record t {
        switch_log = log_switch now t config.defaults.active;
        active_backend = config.defaults.active;
        config = config;
      },
      none,
    )
