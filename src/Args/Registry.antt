-- ===== src/Args/Registry.antt =====
-- src/args/registry.rs: the flags and how each is handled.
use anycode.Base.{String, Bool, false, ◌||◌, Option, none, some, List, [], ◌∷◌, str_eq}

pub data FlagBehavior : Type 0 where
  wrapper_owned intercepted passthrough : FlagBehavior

pub data FlagArity : Type 0 where
  no_value requires_value optional_value : FlagArity

pub record FlagDef : Type 0 where
  pub long : String
  pub short : Option String
  pub arity : FlagArity
  pub behavior : FlagBehavior
  pub description : String

abbrev pub short_matches : Option String → String → Bool
short_matches none arg = false
short_matches (some s) arg = str_eq s arg

abbrev pub matches : FlagDef → String → Bool
matches d arg = str_eq arg d.long || short_matches d.short arg

abbrev flag : String → Option String → FlagArity → FlagBehavior → String → FlagDef
flag l s a b d = record { long = l; short = s; arity = a; behavior = b; description = d }

abbrev pub flag_registry : List FlagDef
flag_registry =
    flag "--backend" (some "-b") requires_value wrapper_owned "Override default backend"
    ∷ flag "--session-id" none requires_value intercepted "Use specific session ID"
    ∷ flag "--resume" (some "-r") requires_value intercepted "Resume a session by ID"
    ∷ flag "--continue" (some "-c") no_value intercepted
        "Continue last session in current directory"
    ∷ flag "--model" (some "-m") requires_value passthrough "Model override"
    ∷ flag "--verbose" (some "-v") no_value passthrough "Verbose output"
    ∷ flag "--print" (some "-p") no_value passthrough "Print mode (non-interactive)"
    ∷ flag "--output-format" none requires_value passthrough "Output format for print mode"
    ∷ flag "--dangerously-skip-permissions" none no_value passthrough "Skip permission prompts"
    ∷ flag "--teammate-mode" none requires_value passthrough "Teammate mode for agent teams"
    ∷ flag "--help" (some "-h") no_value passthrough "Show help"
    ∷ flag "--version" (some "-V") no_value passthrough "Show version"
    ∷ []
