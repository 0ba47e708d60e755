-- ===== src/Args/Session.antt =====
-- src/args/session.rs: the session of the spawned process.
-- `last_session` is what `read_last_session_id` finds on disk, `uuid` a fresh identifier.
pub mod Laws
use anycode.Base.{
  String, Bool, true, false, ◌&&◌, Option, none, some, List, [], ◌∷◌, ◌++◌, is_some, str_eq,
  if◌then◌else◌,
}
use anycode.Args.Classifier.{
  ClassifiedArg, wrapper_owned, intercepted, known_passthrough, unknown_passthrough, positional,
}

pub data SessionSource : Type 0 where
  explicit_id resume_id continue_last generated : SessionSource

pub record SessionResolution : Type 0 where
  pub session_id : String
  pub source : SessionSource
  pub warnings : List String

-- The local variables of the loop.
pub record Seen : Type 0 where
  pub warnings : List String
  pub user_session_id : Option String
  pub session_source : Option SessionSource
  pub saw_continue : Bool

abbrev pub nothing_seen : Seen
nothing_seen = record {
  warnings = [];
  user_session_id = none;
  session_source = none;
  saw_continue = false;
}

-- A flag with an identifier: the last one wins, with a warning.
abbrev pub take_id : Seen → Option String → SessionSource → String → Seen
take_id s none source warning = s
take_id s (some id) source warning = record s {
  warnings = if is_some s.user_session_id then s.warnings ++ warning ∷ [] else s.warnings;
  user_session_id = some id;
  session_source = some source;
}

abbrev pub see_flag : Seen → String → Option String → Seen
see_flag s flag value =
    if str_eq flag "--session-id"
    then take_id s value explicit_id "--session-id: overrides previously specified session flag"
    else if str_eq flag "--resume"
    then take_id s value resume_id "--resume: overrides previously specified session flag"
    else if str_eq flag "--continue"
    then record s { saw_continue = true }
    else s

abbrev pub see : Seen → ClassifiedArg → Seen
see s (intercepted flag value) = see_flag s flag value
see s (wrapper_owned _ _) = s
see s (known_passthrough _ _) = s
see s (unknown_passthrough _) = s
see s (positional _) = s

pub see_all : Seen → List ClassifiedArg → Seen
see_all s [] = s
see_all s (a ∷ rest) = see_all (see s a) rest

abbrev source_or : Option SessionSource → SessionSource → SessionSource
source_or none d = d
source_or (some s) d = s

abbrev continue_from : Option String → String → List String → SessionResolution
continue_from (some id) uuid ws = record { session_id = id; source = continue_last; warnings = ws }
continue_from none uuid ws = record {
  session_id = uuid;
  source = generated;
  warnings =
      ws
      ++ "--continue: no previous session found for current directory, starting new session" ∷ [];
}

abbrev decide : Option String → Seen → Option String → String → List String → SessionResolution
decide (some id) s last_session uuid ws = record {
  session_id = id;
  source = source_or s.session_source explicit_id;
  warnings = ws;
}
decide none s last_session uuid ws =
    if s.saw_continue
    then continue_from last_session uuid ws
    else record { session_id = uuid; source = generated; warnings = ws }

unfoldable pub resolve_session : Option String → String → List ClassifiedArg → SessionResolution
unfolding see_all
resolve_session last_session uuid classified =
    let s = see_all nothing_seen classified in
    let ws =
      if is_some s.user_session_id && s.saw_continue
      then s.warnings ++ "--continue ignored because --session-id/--resume was also specified" ∷ []
      else s.warnings in
    decide s.user_session_id s last_session uuid ws
