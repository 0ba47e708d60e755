-- ===== src/Errors/Laws.antt =====
-- The list of errors is bounded; what the header shows; when health is restored.
use anycode.Base.{
  ℕ, ◌-◌, ◌≤◌, ◌<◌, String, ◌≡◌, refl, Bool, true, false, ◌||◌, append-nil, Option, none, some,
  List, [], ◌∷◌, ◌++◌, ◌==◌, arith, length, length-append, any, str_eq_iff, if◌then◌else◌, ◌∙◌,
}
use anycode.Errors.{
  ErrorSeverity, warning, ErrorCategory, Feature, AppError, RecoveryState, ErrorRegistryInner, new,
  at_least, push, tail, record_error, needs_display, last_display, current_error, acknowledge_first,
  acknowledge, acknowledge_every, acknowledge_all, errors_since, clear_old, without, begun,
  start_recovery, update_recovery, is_active, none_left, recovery_succeeded, recovery_failed,
  set_health, degrade_feature, restore_feature, same_feature,
}

-- The registries that the methods reach from an empty one.
pub data Reachable (capacity : ℕ) : ErrorRegistryInner → Type 0 where
  started : Reachable capacity (new capacity)
  recorded :
      {r : ErrorRegistryInner} (now : ℕ) (s : ErrorSeverity) (c : ErrorCategory) (message : String)
      (details hint : Option String)
      → Reachable capacity r
      → Reachable capacity (record_error now r s c message details hint).0
  read :
      {r : ErrorRegistryInner} (id : ℕ)
      → Reachable capacity r
      → Reachable capacity (acknowledge r id)
  read_all :
      {r : ErrorRegistryInner} → Reachable capacity r → Reachable capacity (acknowledge_all r)
  cleared :
      {r : ErrorRegistryInner} (now age : ℕ)
      → Reachable capacity r
      → Reachable capacity (clear_old now r age)
  recovering :
      {r : ErrorRegistryInner} (operation : String) (n : ℕ)
      → Reachable capacity r
      → Reachable capacity (start_recovery r operation n)
  retried :
      {r : ErrorRegistryInner} (operation : String) (n : ℕ) (next : Option ℕ)
      → Reachable capacity r
      → Reachable capacity (update_recovery r operation n next)
  recovered :
      {r : ErrorRegistryInner} (operation : String)
      → Reachable capacity r
      → Reachable capacity (recovery_succeeded r operation)
  failed :
      {r : ErrorRegistryInner} (operation : String)
      → Reachable capacity r
      → Reachable capacity (recovery_failed r operation)
  judged :
      {r : ErrorRegistryInner} (healthy : Bool) (reason : Option String)
      → Reachable capacity r
      → Reachable capacity (set_health r healthy reason)
  degraded :
      {r : ErrorRegistryInner} (now : ℕ) (f : Feature) (reason : String)
      → Reachable capacity r
      → Reachable capacity (degrade_feature now r f reason)
  restored :
      {r : ErrorRegistryInner} (f : Feature)
      → Reachable capacity r
      → Reachable capacity (restore_feature r f)

abbrev Fits : ℕ → ErrorRegistryInner → Type 0
Fits capacity r = (r.capacity ≡ capacity) × (length r.errors ≤ capacity)

length-tail : (es : List AppError) → length (tail es) ≤ length es
length-tail [] = omega arith
length-tail (e ∷ es) = omega arith

room-left :
    (es : List AppError) (c : ℕ)
    → 0 < c
    → length es ≤ c
    → length (if length es == c then tail es else es) < c
room-left [] c pos l = ground arith
room-left (e ∷ es) c pos l = ground arith

length-push :
    (r : ErrorRegistryInner) (e : AppError) (c : ℕ)
    → 0 < c
    → r.capacity ≡ c
    → length r.errors ≤ c
    → length (push r e) ≤ c
unfolding push
length-push r e c pos h l = omega (
  arith,
  room-left r.errors r.capacity (omega arith) (omega arith),
  length-append (if length r.errors == r.capacity then tail r.errors else r.errors) (e ∷ []),
)

length-acknowledge_first :
    (id : ℕ) (es : List AppError) → length (acknowledge_first id es) ≡ length es
unfolding acknowledge_first
length-acknowledge_first id [] = refl
length-acknowledge_first id (e ∷ es) = ground (arith, length-acknowledge_first id es)

length-acknowledge_every : (es : List AppError) → length (acknowledge_every es) ≡ length es
unfolding acknowledge_every
length-acknowledge_every [] = refl
length-acknowledge_every (e ∷ es) = omega (arith, length-acknowledge_every es)

length-errors_since :
    (cutoff : ℕ) (es : List AppError) → length (errors_since cutoff es) ≤ length es
unfolding errors_since
length-errors_since cutoff [] = omega arith
length-errors_since cutoff (e ∷ es) = ground (arith, length-errors_since cutoff es)

Reachable-Fits : (c : ℕ) (r : ErrorRegistryInner) → 0 < c → Reachable c r → Fits c r
unfolding record_error acknowledge acknowledge_all clear_old start_recovery update_recovery
    recovery_succeeded recovery_failed degrade_feature
Reachable-Fits c r pos started = (refl, omega arith)
Reachable-Fits c r pos (recorded {r = q} now s k m d h w) =
    let (e, l) = Reachable-Fits c q pos w in (e, length-push q _ c pos e l)
Reachable-Fits c r pos (read {r = q} id w) =
    let (e, l) = Reachable-Fits c q pos w in
    (e, omega (arith, length-acknowledge_first id q.errors))
Reachable-Fits c r pos (read_all {r = q} w) =
    let (e, l) = Reachable-Fits c q pos w in (e, omega (arith, length-acknowledge_every q.errors))
Reachable-Fits c r pos (cleared {r = q} now age w) =
    let (e, l) = Reachable-Fits c q pos w in
    (e, omega (arith, length-errors_since (now - age) q.errors))
Reachable-Fits c r pos (recovering {r = q} o n w) = Reachable-Fits c q pos w
Reachable-Fits c r pos (retried {r = q} o n t w) = Reachable-Fits c q pos w
Reachable-Fits c r pos (recovered {r = q} o w) =
    let (e, l) = Reachable-Fits c q pos w in (ground arith, ground arith)
Reachable-Fits c r pos (failed {r = q} o w) = Reachable-Fits c q pos w
Reachable-Fits c r pos (judged {r = q} h o w) = Reachable-Fits c q pos w
Reachable-Fits c r pos (degraded {r = q} now f m w) =
    let (e, l) = Reachable-Fits c q pos w in
    (
      e,
      length-push (record q { degraded_features = λ g. same_feature g f || q.degraded_features g })
          _ c pos e l,
    )
Reachable-Fits c r pos (restored {r = q} f w) = Reachable-Fits c q pos w

-- A registry whose capacity is positive never holds more errors than its capacity, whatever methods
-- have been called.
pub length-errors_Reachable :
    (capacity : ℕ) (r : ErrorRegistryInner)
    → 0 < capacity
    → Reachable capacity r
    → length r.errors ≤ capacity
length-errors_Reachable capacity r pos w = (Reachable-Fits capacity r pos w).1

last_display-append :
    (es : List AppError) (e : AppError)
    → last_display (es ++ e ∷ []) ≡ (if needs_display e then some e else last_display es)
unfolding last_display
last_display-append [] e = refl
last_display-append (x ∷ es) e = ground (arith, last_display-append es e)

last_display-acknowledge_every : (es : List AppError) → last_display (acknowledge_every es) ≡ none
unfolding last_display acknowledge_every
last_display-acknowledge_every [] = refl
last_display-acknowledge_every (e ∷ es) = ground (arith, last_display-acknowledge_every es)

-- An error that was recorded with at least the severity of a warning is the one shown in the header,
-- even if the list was full; it carries the identifier that was returned. After all errors have been
-- acknowledged none is shown.
pub current_error-record_error :
    (now : ℕ) (r : ErrorRegistryInner) (s : ErrorSeverity) (c : ErrorCategory) (message : String)
    (details hint : Option String)
    → at_least s warning ≡ true
    → (current_error (record_error now r s c message details hint).0
        ≡ some (record {
          id = (record_error now r s c message details hint).1;
          timestamp = now;
          severity = s;
          category = c;
          message = message;
          details = details;
          recovery_hint = hint;
          acknowledged = false;
        }))
      × (current_error (acknowledge_all (record_error now r s c message details hint).0) ≡ none)
unfolding current_error record_error acknowledge_all push
current_error-record_error now r s c message details hint h = (
  last_display-append (if length r.errors == r.capacity then tail r.errors else r.errors) _
      ∙ rw h refl,
  last_display-acknowledge_every (record_error now r s c message details hint).0.errors,
)

any-acknowledge_every : (es : List AppError) → any is_active (acknowledge_every es) ≡ false
unfolding acknowledge_every
any-acknowledge_every [] = refl
any-acknowledge_every (e ∷ es) = any-acknowledge_every es

without-append :
    (o : String) (xs ys : List RecoveryState) → without o (xs ++ ys) ≡ without o xs ++ without o ys
unfolding without
without-append o [] ys = refl
without-append o (x ∷ xs) ys = ground (arith, without-append o xs ys)

without-twice : (o : String) (xs : List RecoveryState) → without o (without o xs) ≡ without o xs
unfolding without
without-twice o [] = refl
without-twice o (x ∷ xs) = ground (arith, without-twice o xs)

without-restarted :
    (o : String) (s : RecoveryState) (xs : List RecoveryState)
    → s.operation ≡ o
    → without o (without o xs ++ s ∷ []) ≡ without o xs
unfolding without
without-restarted o s xs e =
    without-append o (without o xs) (s ∷ [])
    ∙ rw (without-twice o xs, (str_eq_iff s.operation o).1 e, append-nil) refl

-- A recovery that starts and succeeds leaves the other recoveries as they were. If every error has
-- been acknowledged, the registry is healthy afterwards if there are no other recoveries, and else
-- as healthy as before; the reason is cleared or kept in the same way.
pub recovery_succeeded-start_recovery :
    (r : ErrorRegistryInner) (operation : String) (n : ℕ)
    → ((recovery_succeeded (start_recovery r operation n) operation).recoveries
        ≡ without operation r.recoveries)
      × ((recovery_succeeded (start_recovery (acknowledge_all r) operation n) operation).healthy
          ≡ (none_left (without operation r.recoveries) || r.healthy))
      × ((recovery_succeeded
            (start_recovery (acknowledge_all r) operation n)
            operation).unhealthy_reason
          ≡ (if none_left (without operation r.recoveries) then none else r.unhealthy_reason))
unfolding recovery_succeeded start_recovery acknowledge_all
recovery_succeeded-start_recovery r operation n =
    rw (without-restarted operation (begun operation n) r.recoveries refl)
      (ground (arith, any-acknowledge_every r.errors))
