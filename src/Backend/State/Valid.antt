-- ===== src/Backend/State/Valid.antt =====
-- The invariant of the backend state: the active backend is configured, and the log tells how it
-- came to be. Each method that changes the state keeps it.
use anycode.Base.{
  ℕ, String, ◌≡◌, refl, Bool, true, false, not, ◌||◌, Option, none, some, List, [], ◌∷◌, ◌++◌,
  arith, find, str_eq, str_eq_iff, if◌then◌else◌, ap, sym, ◌∙◌,
}
use anycode.Config.{Backend, CliProfile}
use anycode.Backend.State.{
  BackendError, backend_not_found, SwitchLogEntry, BackendStateInner, Result, ok, err, has_backend,
  from_config, switch_backend, update_config, new_active, fresh, log_switch, from_backends,
  update_with,
}

-- The last backend of the log.
abbrev pub last_logged : List SwitchLogEntry → Option String
last_logged [] = none
last_logged (e ∷ []) = some e.new_backend
last_logged (e ∷ f ∷ log) = last_logged (f ∷ log)

-- Each entry starts from where the one before it ended.
abbrev pub IsChain : List SwitchLogEntry → Type 0
IsChain [] = Unit
IsChain (e ∷ []) = Unit
IsChain (e ∷ f ∷ log) = (f.old_backend ≡ some e.new_backend) × IsChain (f ∷ log)

pub record IsValid (s : BackendStateInner) : Type 0 where
  pub configured : has_backend s.active_backend s.config.backends ≡ true
  pub logged : last_logged s.switch_log ≡ some s.active_backend
  pub chained : IsChain s.switch_log

abbrev pub ValidResult : Result BackendStateInner → Type 0
ValidResult (ok s) = IsValid s
ValidResult (err e) = Unit

last_logged-append :
    (log : List SwitchLogEntry) (e : SwitchLogEntry)
    → last_logged (log ++ e ∷ []) ≡ some e.new_backend
last_logged-append [] e = refl
last_logged-append (x ∷ []) e = refl
last_logged-append (x ∷ y ∷ log) e = last_logged-append (y ∷ log) e

IsChain-append :
    (log : List SwitchLogEntry) (e : SwitchLogEntry)
    → IsChain log
    → last_logged log ≡ e.old_backend
    → IsChain (log ++ e ∷ [])
IsChain-append [] e h k = tt
IsChain-append (x ∷ []) e h k = (sym k, tt)
IsChain-append (x ∷ y ∷ log) e h k = (h.0, IsChain-append (y ∷ log) e h.1 k)

pub has_backend-find :
    (id : String) (bs : List Backend)
    → has_backend id bs ≡ true
    → (b : Backend) × (find (λ c. str_eq c.name id) bs ≡ some b) × (b.name ≡ id)
has_backend-find id [] h = cc
has_backend-find id (b ∷ bs) h = go (str_eq b.name id) refl h (has_backend-find id bs)
  where
    Found : Option Backend → Type 0
    Found o = (c : Backend) × (o ≡ some c) × (c.name ≡ id)

    go :
        (t : Bool)
        → str_eq b.name id ≡ t
        → (t || has_backend id bs) ≡ true
        → (has_backend id bs ≡ true → Found (find (λ c. str_eq c.name id) bs))
        → Found (elim t [ true ↦ some b | false ↦ find (λ c. str_eq c.name id) bs ])
    go true e h rec = (b, refl, (str_eq_iff b.name id).0 e)
    go false e h rec = rec h

pub find-none :
    (id : String) (bs : List Backend)
    → has_backend id bs ≡ false
    → find (λ c. str_eq c.name id) bs ≡ none
find-none id [] h = refl
find-none id (b ∷ bs) h = ground (arith, find-none id bs)

pub str_eq_self : (s : String) → str_eq s s ≡ true
str_eq_self s = (str_eq_iff s s).1 refl

has_backend-here : (b : Backend) (bs : List Backend) → has_backend b.name (b ∷ bs) ≡ true
has_backend-here b bs = ground (arith, str_eq_self b.name)

fresh-IsValid :
    (now : ℕ) (config : CliProfile) (id : String) (cached : Bool)
    → has_backend id config.backends ≡ true
    → IsValid (fresh now config id cached)
fresh-IsValid now config id cached h = record { configured = h; logged = refl; chained = tt }

pub from_config-IsValid :
    (now : ℕ) (cached : Bool) (config : CliProfile) → ValidResult (from_config now cached config)
unfolding from_config
from_config-IsValid now cached config = go config.backends refl
  where
    chosen :
        (b : Backend) (bs : List Backend) (empty found : Bool)
        → config.backends ≡ b ∷ bs
        → has_backend config.defaults.active (b ∷ bs) ≡ found
        → ValidResult (
            if empty
            then ok (fresh now config b.name cached)
            else if not found
            then err (backend_not_found config.defaults.active)
            else ok (fresh now config config.defaults.active cached))
    chosen b bs true found e f =
        fresh-IsValid now config b.name cached (ap (has_backend b.name) e ∙ has_backend-here b bs)
    chosen b bs false true e f =
        fresh-IsValid now config config.defaults.active cached
          (ap (has_backend config.defaults.active) e ∙ f)
    chosen b bs false false e f = tt

    go :
        (bs : List Backend)
        → config.backends ≡ bs
        → ValidResult (from_backends now config cached bs)
    go [] e = tt
    go (b ∷ bs) e =
        chosen b bs (str_eq config.defaults.active "") (has_backend config.defaults.active (b ∷ bs))
          e refl

switched-IsValid :
    (now : ℕ) (s : BackendStateInner) (id : String) (config : CliProfile) (cached : Bool)
    → IsValid s
    → has_backend id config.backends ≡ true
    → IsValid (record {
      active_backend = id;
      config = config;
      switch_log = log_switch now s id;
      models_cached = cached;
    })
switched-IsValid now s id config cached h k = record {
  configured = k;
  logged = last_logged-append s.switch_log _;
  chained = IsChain-append s.switch_log _ h.chained h.logged;
}

abbrev ValidAfter : BackendStateInner × Option BackendError → Type 0
ValidAfter r = IsValid r.0

pub switch_backend-IsValid :
    (now : ℕ) (s : BackendStateInner) (id : String)
    → IsValid s
    → IsValid (switch_backend now s id).0
unfolding switch_backend
switch_backend-IsValid now s id h =
    go (has_backend id s.config.backends) (str_eq s.active_backend id) refl
  where
    go :
        (found same : Bool)
        → has_backend id s.config.backends ≡ found
        → ValidAfter (
            if not found then (s, some (backend_not_found id)) else if same then (s, none) else (
              record s {
                switch_log = log_switch now s id;
                active_backend = id;
                models_cached = false;
              },
              none,
            ))
    go false same e = h
    go true true e = h
    go true false e = switched-IsValid now s id s.config false h e

-- A configuration whose default backend is empty or one of its backends.
pub data IsConsistent (config : CliProfile) : Type 0 where
  no_default : config.defaults.active ≡ "" → IsConsistent config
  has_default : has_backend config.defaults.active config.backends ≡ true → IsConsistent config

has_backend-new_active :
    (config : CliProfile) (b : Backend) (bs : List Backend)
    → config.backends ≡ b ∷ bs
    → IsConsistent config
    → has_backend (new_active config b) config.backends ≡ true
has_backend-new_active config b bs e c = go (str_eq config.defaults.active "") refl
  where
    go :
        (empty : Bool)
        → str_eq config.defaults.active "" ≡ empty
        → has_backend (if empty then b.name else config.defaults.active) config.backends ≡ true
    go true f = ap (has_backend b.name) e ∙ has_backend-here b bs
    go false f = elim c [
      | no_default d ↦ ground (arith, str_eq_iff config.defaults.active "")
      | has_default k ↦ k
    ]

pub update_config-IsValid :
    (now : ℕ) (s : BackendStateInner) (config : CliProfile)
    → IsConsistent config
    → IsValid s
    → IsValid (update_config now s config).0
unfolding update_config
update_config-IsValid now s config c h = go config.backends refl
  where
    kept :
        (b : Backend) (bs : List Backend) (found : Bool)
        → config.backends ≡ b ∷ bs
        → has_backend s.active_backend (b ∷ bs) ≡ found
        → ValidAfter (
            if not found
            then (
              record s {
                switch_log = log_switch now s (new_active config b);
                active_backend = new_active config b;
                config = config;
              },
              none,
            )
            else (record s { config = config }, none))
    kept b bs true e f = record {
      configured = ap (has_backend s.active_backend) e ∙ f;
      logged = h.logged;
      chained = h.chained;
    }
    kept b bs false e f =
        switched-IsValid now s (new_active config b) config s.models_cached h
          (has_backend-new_active config b bs e c)

    go : (bs : List Backend) → config.backends ≡ bs → IsValid (update_with now s config bs).0
    go [] e = h
    go (b ∷ bs) e = kept b bs (has_backend s.active_backend (b ∷ bs)) e refl
