-- ===== src/Args/Classifier.antt =====
-- src/args/classifier.rs: raw arguments to classified arguments.
pub mod Words
pub mod Leak
use anycode.Base.{
  String, ◌<>◌, Bool, true, false, not, Option, none, some, List, [], ◌∷◌, ◌++◌, starts_with, find,
  is_some, if◌then◌else◌,
}
use anycode.Args.Registry.{
  FlagBehavior, FlagArity, no_value, requires_value, optional_value, FlagDef, matches,
}

pub data ClassifiedArg : Type 0 where
  wrapper_owned : String → Option String → ClassifiedArg
  intercepted : String → Option String → ClassifiedArg
  known_passthrough : String → Option String → ClassifiedArg
  unknown_passthrough : String → ClassifiedArg
  positional : String → ClassifiedArg

pub record ClassifyResult : Type 0 where
  pub args : List ClassifiedArg
  pub warnings : List String

abbrev pub is_flag : String → Bool
is_flag arg = starts_with arg "-"

-- `peek` and `!next.starts_with('-')`.
abbrev pub peek_value : Option String → Option String
peek_value none = none
peek_value (some next) = if is_flag next then none else some next

abbrev pub classified_as : FlagBehavior → String → Option String → ClassifiedArg
classified_as FlagBehavior.wrapper_owned = wrapper_owned
classified_as FlagBehavior.intercepted = intercepted
classified_as FlagBehavior.passthrough = known_passthrough

-- The value that the flag takes from what follows it.
abbrev pub value_for : FlagArity → Option String → Option String
value_for no_value peek = none
value_for requires_value peek = peek_value peek
value_for optional_value peek = peek_value peek

abbrev missing_warning : FlagDef → Option String → List String
missing_warning d none = (d.long <> ": missing required value") ∷ []
missing_warning d (some _) = []

abbrev warnings_for : FlagArity → FlagDef → Option String → List String
warnings_for requires_value d value = missing_warning d value
warnings_for _ d value = []

abbrev pub push : ClassifyResult → List ClassifiedArg → List String → ClassifyResult
push r new warned = record { args = r.args ++ new; warnings = r.warnings ++ warned }

-- One round of the loop: the new result, and whether the next argument was consumed as well.
abbrev pub known : ClassifyResult → FlagDef → Option String → ClassifyResult × Bool
known r d peek =
    let value = value_for d.arity peek in
    (
      push r (classified_as d.behavior d.long value ∷ []) (warnings_for d.arity d value),
      is_some value,
    )

abbrev unknown_value : Option String → List ClassifiedArg
unknown_value none = []
unknown_value (some v) = unknown_passthrough v ∷ []

abbrev pub unknown : ClassifyResult → String → Option String → ClassifyResult × Bool
unknown r arg peek =
    let value = peek_value peek in
    (
      push r (unknown_passthrough arg ∷ unknown_value value)
          ((arg <> ": unknown flag, forwarding to claude") ∷ []),
      is_some value,
    )

abbrev pub flag_step :
    ClassifyResult → Option FlagDef → String → Option String → ClassifyResult × Bool
flag_step r none arg peek = unknown r arg peek
flag_step r (some d) arg peek = known r d peek

-- `registry.iter().find(|d| d.matches(arg))`
abbrev pub look_up : List FlagDef → String → Option FlagDef
look_up registry arg = find (λ d. matches d arg) registry

pub step : List FlagDef → ClassifyResult → String → Option String → ClassifyResult × Bool
step registry r arg peek =
    if is_flag arg
    then flag_step r (look_up registry arg) arg peek
    else (push r (positional arg ∷ []) [], false)

pub classify_loop : List FlagDef → ClassifyResult → List String → ClassifyResult
classify_loop registry r [] = r
classify_loop registry r (arg ∷ []) = (step registry r arg none).0
classify_loop registry r (arg ∷ next ∷ rest) =
    let (r', consumed) = step registry r arg (some next) in
    let skipped = classify_loop registry r' rest in
    let kept = classify_loop registry r' (next ∷ rest) in if consumed then skipped else kept

unfoldable pub classify : List String → List FlagDef → ClassifyResult
unfolding classify_loop step
classify raw_args registry = classify_loop registry (record { args = []; warnings = [] }) raw_args
