-- ===== src/Errors.antt =====
-- `ErrorRegistry` (src/error.rs): recent errors, health and running recoveries. The lock makes each
-- method one step; `now` is the time that the clock gives.
pub mod Laws
mod Tests
use anycode.Base.{
  ℕ, ◌+◌, ◌-◌, ◌%◌, String, Bool, true, false, not, ◌&&◌, ◌||◌, Option, none, some, List, [], ◌∷◌,
  ◌++◌, ◌==◌, leb, length, any, str_eq, if◌then◌else◌, ◌>>=◌,
}

pub data ErrorSeverity : Type 0 where
  info warning error critical : ErrorSeverity

pub data ErrorCategory : Type 0 where
  process network config backend ipc system : ErrorCategory

pub data Feature : Type 0 where
  metrics clipboard config_hot_reload backend_switch : Feature

pub record AppError : Type 0 where
  pub id : ℕ
  pub timestamp : ℕ
  pub severity : ErrorSeverity
  pub category : ErrorCategory
  pub message : String
  pub details : Option String
  pub recovery_hint : Option String
  pub acknowledged : Bool

pub record RecoveryState : Type 0 where
  pub operation : String
  pub attempt : ℕ
  pub max_attempts : ℕ
  pub next_retry : Option ℕ
  pub succeeded : Bool

-- The set of degraded features is a predicate.
pub record ErrorRegistryInner : Type 0 where
  pub next_id : ℕ
  pub errors : List AppError
  pub capacity : ℕ
  pub recoveries : List RecoveryState
  pub healthy : Bool
  pub unhealthy_reason : Option String
  pub degraded_features : Feature → Bool

abbrev pub new : ℕ → ErrorRegistryInner
new capacity = record {
  next_id = 1;
  errors = [];
  capacity = capacity;
  recoveries = [];
  healthy = true;
  unhealthy_reason = none;
  degraded_features = λ f. false;
}

-- The order of the severities.
abbrev pub level : ErrorSeverity → ℕ
level info = 0
level warning = 1
level error = 2
level critical = 3

abbrev pub at_least : ErrorSeverity → ErrorSeverity → Bool
at_least s bound = leb (level bound) (level s)

abbrev tail : List AppError → List AppError
tail [] = []
tail (e ∷ es) = es

-- The push of the ring buffer.
unfoldable pub push : ErrorRegistryInner → AppError → List AppError
push r e = (if length r.errors == r.capacity then tail r.errors else r.errors) ++ e ∷ []

-- The identifier of the next error, on 64 bits.
abbrev next : ℕ → ℕ
next n = (n + 1) % 18446744073709551616

-- `record_with_hint`, and without a hint `record_with_details`; the identifier is returned.
unfoldable pub record_error :
    ℕ
    → ErrorRegistryInner
    → ErrorSeverity
    → ErrorCategory
    → String
    → Option String
    → Option String
    → ErrorRegistryInner × ℕ
unfolding push
record_error now r severity category message details hint =
    let e : AppError = record {
      id = r.next_id;
      timestamp = now;
      severity = severity;
      category = category;
      message = message;
      details = details;
      recovery_hint = hint;
      acknowledged = false;
    } in
    (
      record r {
        next_id = next r.next_id;
        healthy = if at_least severity error then false else r.healthy;
        unhealthy_reason = if at_least severity error then some message else r.unhealthy_reason;
        errors = push r e;
      },
      r.next_id,
    )

abbrev pub needs_display : AppError → Bool
needs_display e = not e.acknowledged && at_least e.severity warning

-- `errors.iter().rev().find(...)`: the last one.
unfoldable pub last_display : List AppError → Option AppError
last_display [] = none
last_display (e ∷ es) = elim (last_display es) [
  | some f ↦ some f
  | none ↦ (if needs_display e then some e else none)
]

unfoldable pub current_error : ErrorRegistryInner → Option AppError
unfolding last_display
current_error r = last_display r.errors

abbrev pub acknowledged_error : AppError → AppError
acknowledged_error e = record e { acknowledged = true }

-- The first error with the identifier.
unfoldable pub acknowledge_first : ℕ → List AppError → List AppError
acknowledge_first id [] = []
acknowledge_first id (e ∷ es) =
    let rest = acknowledge_first id es in if e.id == id then acknowledged_error e ∷ es else e ∷ rest

unfoldable pub acknowledge : ErrorRegistryInner → ℕ → ErrorRegistryInner
unfolding acknowledge_first
acknowledge r id = record r { errors = acknowledge_first id r.errors }

unfoldable pub acknowledge_every : List AppError → List AppError
acknowledge_every [] = []
acknowledge_every (e ∷ es) = acknowledged_error e ∷ acknowledge_every es

unfoldable pub acknowledge_all : ErrorRegistryInner → ErrorRegistryInner
unfolding acknowledge_every
acknowledge_all r = record r { errors = acknowledge_every r.errors }

unfoldable pub errors_since : ℕ → List AppError → List AppError
errors_since cutoff [] = []
errors_since cutoff (e ∷ es) =
    let rest = errors_since cutoff es in if leb cutoff e.timestamp then e ∷ rest else rest

-- A time before the epoch is the epoch.
unfoldable pub clear_old : ℕ → ErrorRegistryInner → ℕ → ErrorRegistryInner
unfolding errors_since
clear_old now r older_than = record r { errors = errors_since (now - older_than) r.errors }

unfoldable pub without : String → List RecoveryState → List RecoveryState
without operation [] = []
without operation (s ∷ ss) =
    let rest = without operation ss in if str_eq s.operation operation then rest else s ∷ rest

abbrev pub begun : String → ℕ → RecoveryState
begun operation max_attempts = record {
  operation = operation;
  attempt = 1;
  max_attempts = max_attempts;
  next_retry = none;
  succeeded = false;
}

unfoldable pub start_recovery : ErrorRegistryInner → String → ℕ → ErrorRegistryInner
unfolding without
start_recovery r operation max_attempts = record r {
  recoveries = without operation r.recoveries ++ begun operation max_attempts ∷ [];
}

-- `iter_mut().find(...)` and a change of what it finds.
unfoldable pub change_first :
    String → (RecoveryState → RecoveryState) → List RecoveryState → List RecoveryState
change_first operation f [] = []
change_first operation f (s ∷ ss) =
    let rest = change_first operation f ss in
    if str_eq s.operation operation then f s ∷ ss else s ∷ rest

unfoldable pub update_recovery : ErrorRegistryInner → String → ℕ → Option ℕ → ErrorRegistryInner
unfolding change_first
update_recovery r operation attempt next_retry = record r {
  recoveries =
      change_first operation (λ s. record s { attempt = attempt; next_retry = next_retry })
        r.recoveries;
}

abbrev pub is_active : AppError → Bool
is_active e = not e.acknowledged && at_least e.severity error

abbrev pub none_left : List RecoveryState → Bool
none_left [] = true
none_left (_ ∷ _) = false

unfoldable pub recovery_succeeded : ErrorRegistryInner → String → ErrorRegistryInner
unfolding without
recovery_succeeded r operation =
    let left = without operation r.recoveries in
    if none_left left && not (any is_active r.errors)
    then record r { recoveries = left; healthy = true; unhealthy_reason = none }
    else record r { recoveries = left }

unfoldable pub recovery_failed : ErrorRegistryInner → String → ErrorRegistryInner
unfolding change_first
recovery_failed r operation = record r {
  recoveries = change_first operation (λ s. record s { succeeded = false }) r.recoveries;
}

abbrev pub set_health : ErrorRegistryInner → Bool → Option String → ErrorRegistryInner
set_health r healthy reason = record r { healthy = healthy; unhealthy_reason = reason }

abbrev pub same_feature : Feature → Feature → Bool
same_feature metrics metrics = true
same_feature clipboard clipboard = true
same_feature config_hot_reload config_hot_reload = true
same_feature backend_switch backend_switch = true
same_feature _ _ = false

-- Degrading a feature records a warning as well.
unfoldable pub degrade_feature : ℕ → ErrorRegistryInner → Feature → String → ErrorRegistryInner
unfolding record_error
degrade_feature now r feature reason =
    let r' = record r {
      degraded_features = λ f. same_feature f feature || r.degraded_features f;
    } in
    (record_error now r' warning system reason none none).0

abbrev pub restore_feature : ErrorRegistryInner → Feature → ErrorRegistryInner
restore_feature r feature = record r {
  degraded_features = λ f. not (same_feature f feature) && r.degraded_features f;
}

abbrev pub is_feature_available : ErrorRegistryInner → Feature → Bool
is_feature_available r feature = not (r.degraded_features feature)
