-- ===== src/Args/Assembler.antt =====
-- src/args/assembler.rs: the argument list of the spawned process.
use anycode.Base.{
  ℕ, String, ◌<>◌, Bool, true, false, Option, none, some, List, [], ◌∷◌, ◌++◌, str_eq,
  if◌then◌else◌,
}
use anycode.Base.Decimal.{decimal_u16}
use anycode.Args.Classifier.{
  ClassifiedArg, wrapper_owned, intercepted, known_passthrough, unknown_passthrough, positional,
}
use anycode.Args.Session.{SessionResolution}
use anycode.Args.Settings.{ClaudeSettingsManager, to_cli_args}
use anycode.Args.Env.{TeammateShim}

-- src/args/mod.rs
pub data SessionMode : Type 0 where
  initial resume : SessionMode

pub record ArgAssembler : Type 0 where
  pub args : List String
  pub copilot_mode : Bool

abbrev pub with_value : String → Option String → List String
with_value flag none = flag ∷ []
with_value flag (some v) = flag ∷ v ∷ []

-- The words that one classified argument is forwarded as.
abbrev pub forwarded : ClassifiedArg → List String
forwarded (known_passthrough flag value) = with_value flag value
forwarded (unknown_passthrough s) = s ∷ []
forwarded (positional s) = s ∷ []
forwarded (wrapper_owned _ _) = []
forwarded (intercepted _ _) = []

unfoldable pub forward_all : List ClassifiedArg → List String
forward_all [] = []
forward_all (a ∷ rest) = forwarded a ++ forward_all rest

unfoldable pub from_passthrough : List ClassifiedArg → ArgAssembler
unfolding forward_all
from_passthrough classified = record { args = forward_all classified; copilot_mode = false }

unfoldable pub strip_claude_only_flags : List String → List String
strip_claude_only_flags [] = []
strip_claude_only_flags (a ∷ []) = if str_eq a "--session-id" then [] else a ∷ []
strip_claude_only_flags (a ∷ b ∷ rest) = elim (str_eq a "--session-id") [
  | true ↦ strip_claude_only_flags rest
  | false ↦ a ∷ strip_claude_only_flags (b ∷ rest)
]

unfoldable pub copilot_mode : ArgAssembler → Bool → ArgAssembler
unfolding strip_claude_only_flags
copilot_mode a enabled = record {
  args = if enabled then strip_claude_only_flags a.args else a.args;
  copilot_mode = enabled;
}

abbrev extend : ArgAssembler → List String → ArgAssembler
extend a more = record a { args = a.args ++ more }

abbrev pub session_args : Bool → String → SessionMode → List String
session_args true id resume = ("--resume=" <> id) ∷ []
session_args true id initial = []
session_args false id initial = "--session-id" ∷ id ∷ []
session_args false id resume = "--resume" ∷ id ∷ []

unfoldable pub with_session : ArgAssembler → SessionResolution → SessionMode → ArgAssembler
with_session a session mode = extend a (session_args a.copilot_mode session.session_id mode)

unfoldable pub with_session_resume : ArgAssembler → String → ArgAssembler
with_session_resume a id = extend a (session_args a.copilot_mode id resume)

unfoldable pub with_settings : ArgAssembler → ClaudeSettingsManager → ArgAssembler
with_settings a settings = extend a (to_cli_args settings)

abbrev teammate_args : Option TeammateShim → List String
teammate_args none = []
teammate_args (some _) = "--teammate-mode" ∷ "tmux" ∷ []

unfoldable pub with_teammate_mode : ArgAssembler → Option TeammateShim → ArgAssembler
with_teammate_mode a shim = if a.copilot_mode then a else extend a (teammate_args shim)

abbrev hook : String → String → String → String
hook event path port =
    "\""
    <> (event
        <> ("\":[{\"matcher\":\"\",\"hooks\":[{\"type\":\"command\",\"command\":"
            <> ("\"curl -s -m 5 -X POST http://127.0.0.1:"
                <> (port <> (path <> " -d @- -H 'Content-Type: application/json'\"}]}]")))))

abbrev pub hooks_json : ℕ → String
hooks_json proxy_port =
    let port = decimal_u16 proxy_port in
    "{\"hooks\":{"
    <> (hook "SubagentStart" "/api/subagent-start" port
        <> ("," <> (hook "SubagentStop" "/api/subagent-stop" port <> "}}")))

unfoldable pub with_subagent_hooks : ArgAssembler → ℕ → ArgAssembler
with_subagent_hooks a proxy_port =
    if a.copilot_mode then a else extend a ("--settings" ∷ hooks_json proxy_port ∷ [])

unfoldable pub with_extra : ArgAssembler → List String → ArgAssembler
with_extra a extra = extend a extra
