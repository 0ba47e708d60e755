-- ===== src/Args/Classifier/Leak.antt =====
-- What is forwarded to the child process: no word that is the name of a flag that anycode consumes.
use anycode.Base.{
  String, ◌≡◌, refl, Bool, true, false, Option, none, some, List, [], ◌∷◌, arith, All, All-append,
  All-find, if◌then◌else◌, Bool-cases, inl, inr, str_eq, str_eq_iff, ap,
}
use anycode.Args.Registry.{
  FlagBehavior, FlagArity, FlagDef, matches, flag_registry, no_value, requires_value,
  optional_value,
}
use anycode.Args.Assembler.{
  forwarded, forward_all, from_passthrough, strip_claude_only_flags, copilot_mode,
}
use anycode.Args.Classifier.{
  ClassifiedArg, unknown_passthrough, positional, ClassifyResult, is_flag, peek_value, value_for,
  classified_as, flag_step, look_up, step, classify_loop, classify, unknown_value,
}

abbrev is_passthrough : FlagBehavior → Bool
is_passthrough FlagBehavior.passthrough = true
is_passthrough _ = false

abbrev found_passthrough : Option FlagDef → Bool
found_passthrough none = true
found_passthrough (some d) = is_passthrough d.behavior

-- A word that may be forwarded: if it is a registered flag, then a passthrough one.
abbrev pub may_forward : List FlagDef → String → Bool
may_forward registry w = if is_flag w then found_passthrough (look_up registry w) else true

-- The long form of every passthrough flag may itself be forwarded.
abbrev pub IsCoherent : List FlagDef → Type 0
IsCoherent registry =
    All (λ d. (if is_passthrough d.behavior then may_forward registry d.long else true) ≡ true)
      registry

abbrev pub Forwardable : List FlagDef → List String → Type 0
Forwardable registry = All (λ w. may_forward registry w ≡ true)

abbrev Forwards : List FlagDef → List ClassifiedArg → Type 0
Forwards registry = All (λ a. Forwardable registry (forwarded a))

module _ (registry : List FlagDef) (coherent : IsCoherent registry) where
  value-may : (next : String) → is_flag next ≡ false → may_forward registry next ≡ true
  value-may next h = rw h refl

  unregistered-may : (arg : String) → look_up registry arg ≡ none → may_forward registry arg ≡ true
  unregistered-may arg e = elim (Bool-cases (is_flag arg)) [
    | inl flag ↦ rw (flag, e) refl
    | inr plain ↦ rw plain refl
  ]

  peek_value-not_flag :
      (peek : Option String) {v : String} → peek_value peek ≡ some v → is_flag v ≡ false
  peek_value-not_flag none e = cc
  peek_value-not_flag (some next) e = ground arith

  value_for-not_flag :
      (a : FlagArity) (peek : Option String) {v : String}
      → value_for a peek ≡ some v
      → is_flag v ≡ false
  value_for-not_flag no_value peek e = cc
  value_for-not_flag requires_value peek e = peek_value-not_flag peek e
  value_for-not_flag optional_value peek e = peek_value-not_flag peek e

  unknown-Forwards :
      (arg : String) (value : Option String)
      → may_forward registry arg ≡ true
      → ((v : String) → value ≡ some v → is_flag v ≡ false)
      → Forwards registry (unknown_passthrough arg ∷ unknown_value value)
  unknown-Forwards arg none h k = ((h, tt), tt)
  unknown-Forwards arg (some v) h k = ((h, tt), ((value-may v (k v refl), tt), tt))

  known-Forwards :
      (b : FlagBehavior) (long : String) (value : Option String)
      → (if is_passthrough b then may_forward registry long else true) ≡ true
      → ((v : String) → value ≡ some v → is_flag v ≡ false)
      → Forwards registry (classified_as b long value ∷ [])
  known-Forwards FlagBehavior.wrapper_owned long value h k = (tt, tt)
  known-Forwards FlagBehavior.intercepted long value h k = (tt, tt)
  known-Forwards FlagBehavior.passthrough long none h k = ((h, tt), tt)
  known-Forwards FlagBehavior.passthrough long (some v) h k =
      ((h, (value-may v (k v refl), tt)), tt)

  flag_step-Forwards :
      (r : ClassifyResult) (arg : String) (peek : Option String) (found : Option FlagDef)
      → look_up registry arg ≡ found
      → Forwards registry r.args
      → Forwards registry (flag_step r found arg peek).0.args
  flag_step-Forwards r arg peek none e h = All-append _ r.args _ h (
      unknown-Forwards arg (peek_value peek) (unregistered-may arg e)
        (λ v. peek_value-not_flag peek))
  flag_step-Forwards r arg peek (some d) e h = All-append _ r.args _ h (
      known-Forwards d.behavior d.long (value_for d.arity peek)
        (All-find _ (λ d'. matches d' arg) registry coherent e)
        (λ v. value_for-not_flag d.arity peek))

  step-Forwards :
      (r : ClassifyResult) (arg : String) (peek : Option String)
      → Forwards registry r.args
      → Forwards registry (step registry r arg peek).0.args
  unfolding step
  step-Forwards r arg peek h = elim (Bool-cases (is_flag arg)) [
    | inl flag ↦ rw flag (flag_step-Forwards r arg peek (look_up registry arg) refl h)
    | inr plain ↦
        rw plain (All-append _ r.args (positional arg ∷ []) h ((value-may arg plain, tt), tt))
  ]

  loop-Forwards :
      (raw : List String) (r : ClassifyResult)
      → Forwards registry r.args
      → Forwards registry (classify_loop registry r raw).args
  unfolding classify_loop
  loop-Forwards [] r h = h
  loop-Forwards (arg ∷ []) r h = step-Forwards r arg none h
  loop-Forwards (arg ∷ next ∷ rest) r h =
      go (step registry r arg (some next)).0 (step registry r arg (some next)).1
        (step-Forwards r arg (some next) h) (λ q. loop-Forwards rest q)
        (λ q. loop-Forwards (next ∷ rest) q)
    where
      go :
          (q : ClassifyResult) (c : Bool)
          → Forwards registry q.args
          → ((t : ClassifyResult)
              → Forwards registry t.args
              → Forwards registry (classify_loop registry t rest).args)
          → ((t : ClassifyResult)
              → Forwards registry t.args
              → Forwards registry (classify_loop registry t (next ∷ rest)).args)
          → Forwards registry
              (if c
                then classify_loop registry q rest
                else classify_loop registry q (next ∷ rest)).args
      go q true k skip keep = skip q k
      go q false k skip keep = keep q k

  forward_all-Forwardable :
      (classified : List ClassifiedArg)
      → Forwards registry classified
      → Forwardable registry (forward_all classified)
  unfolding forward_all
  forward_all-Forwardable [] h = tt
  forward_all-Forwardable (a ∷ rest) h =
      All-append _ (forwarded a) _ h.0 (forward_all-Forwardable rest h.1)

-- In a registry whose passthrough flags are found under their own long form, every word that is
-- forwarded, begins with `-` and is the name of a registered flag, is the name of a passthrough one. So
-- no word that is the name of an owned or an intercepted flag reaches the child through the user's
-- arguments. A word with its value behind `=`, as `--resume=abc`, is the name of no flag and is not
-- meant.
pub from_passthrough-Forwardable :
    (registry : List FlagDef) (raw : List String)
    → IsCoherent registry
    → Forwardable registry (from_passthrough (classify raw registry).args).args
unfolding from_passthrough classify
from_passthrough-Forwardable registry raw coherent =
    forward_all-Forwardable registry coherent (classify raw registry).args
      (loop-Forwards registry coherent raw (record { args = []; warnings = [] }) tt)

pub flag_registry-IsCoherent : IsCoherent flag_registry
flag_registry-IsCoherent = (
  refl,
  (refl, (refl, (refl, (refl, (refl, (refl, (refl, (refl, (refl, (refl, (refl, tt))))))))))),
)

-- `--session-id` is intercepted, so it is no forwardable word.
session_id-ne : (w : String) → may_forward flag_registry w ≡ true → str_eq w "--session-id" ≡ false
session_id-ne w h = elim (Bool-cases (str_eq w "--session-id")) [
  | inl same ↦
      let e : may_forward flag_registry "--session-id" ≡ true =
        rw ((str_eq_iff w "--session-id").0 same) at h in
      cc e
  | inr other ↦ other
]

pub strip-Forwardable :
    (ws : List String) → Forwardable flag_registry ws → strip_claude_only_flags ws ≡ ws
unfolding strip_claude_only_flags
strip-Forwardable [] h = refl
strip-Forwardable (a ∷ []) h = rw (session_id-ne a h.0) refl
strip-Forwardable (a ∷ b ∷ rest) h =
    rw (session_id-ne a h.0, strip_claude_only_flags)
      (ap (λ t. a ∷ t) (strip-Forwardable (b ∷ rest) h.1))

-- Whatever the user passes, switching to Copilot mode strips nothing from what is forwarded: no
-- `--session-id` can have come through.
pub copilot_mode-from_passthrough :
    (raw : List String)
    → (copilot_mode (from_passthrough (classify raw flag_registry).args) true).args
      ≡ (from_passthrough (classify raw flag_registry).args).args
unfolding copilot_mode
copilot_mode-from_passthrough raw =
    strip-Forwardable _ (from_passthrough-Forwardable flag_registry raw flag_registry-IsCoherent)
