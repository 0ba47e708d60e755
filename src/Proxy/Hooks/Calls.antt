-- ===== src/Proxy/Hooks/Calls.antt =====
-- What a sequence of calls of the hooks makes of the registry (src/proxy/hooks.rs).
use anycode.Base.{
  String, ◌≡◌, refl, ◌∙◌, Bool, true, not, Option, none, some, List, [], ◌∷◌, All, arith, str_eq,
}
use anycode.Backend.Agents.{AgentRegistry, lookup, register}
use anycode.Backend.Agents.Laws.{lookup-remove, lookup-register}
use anycode.Proxy.Hooks.{
  HookState, SubagentHookInput, handle_subagent_start, handle_subagent_stop, handle_teammate_start,
  start, stop, or_active, get,
}

-- What the hooks and the user do, one call at a time.
pub data HookCall : Type 0 where
  starts : SubagentHookInput → HookCall
  stops : SubagentHookInput → HookCall
  teammate_starts : String → HookCall
  sets_subagent_backend : Option String → HookCall
  sets_teammate_backend : Option String → HookCall

abbrev pub call : HookState → HookCall → HookState
call state (starts input) = (handle_subagent_start state input).0
call state (stops input) = handle_subagent_stop state input
call state (teammate_starts id) = (handle_teammate_start state id).0
call state (sets_subagent_backend backend) = record state { subagent_backend = backend }
call state (sets_teammate_backend backend) = record state { teammate_backend = backend }

unfoldable pub calls : HookState → List HookCall → HookState
calls state [] = state
calls state (c ∷ cs) = calls (call state c) cs

abbrev pub is_other : String → Option String → Bool
is_other id none = true
is_other id (some other) = not (str_eq other id)

-- The call is not about the agent.
abbrev pub NotAbout : String → HookCall → Type 0
NotAbout id (starts input) = is_other id input.agent_id ≡ true
NotAbout id (stops input) = is_other id input.agent_id ≡ true
NotAbout id (teammate_starts other) = is_other id (some other) ≡ true
NotAbout id _ = Unit

register-other :
    (r : AgentRegistry) (id other backend : String)
    → not (str_eq other id) ≡ true
    → lookup (register r other backend) id ≡ lookup r id
register-other r id other backend h = lookup-register r other backend id ∙ ground arith

start-lookup :
    (id : String) (state : HookState) (agent backend : Option String)
    → is_other id agent ≡ true
    → lookup (start state agent backend).0.registry id ≡ lookup state.registry id
start-lookup id state none backend h = refl
start-lookup id state (some other) none h = refl
start-lookup id state (some other) (some backend) h =
    register-other state.registry id other backend h

stop-lookup :
    (id : String) (state : HookState) (agent : Option String)
    → is_other id agent ≡ true
    → lookup (stop state agent).registry id ≡ lookup state.registry id
stop-lookup id state none h = refl
stop-lookup id state (some other) h = lookup-remove state.registry other id ∙ ground arith

call-lookup :
    (id : String) (state : HookState) (c : HookCall)
    → NotAbout id c
    → lookup (call state c).registry id ≡ lookup state.registry id
unfolding handle_subagent_start handle_subagent_stop handle_teammate_start
call-lookup id state (starts input) h =
    start-lookup id state input.agent_id (get state.subagent_backend) h
call-lookup id state (stops input) h = stop-lookup id state input.agent_id h
call-lookup id state (teammate_starts other) h =
    register-other state.registry id other (or_active state (get state.teammate_backend)) h
call-lookup id state (sets_subagent_backend _) h = refl
call-lookup id state (sets_teammate_backend _) h = refl

pub calls-lookup :
    (id : String) (state : HookState) (cs : List HookCall)
    → All (NotAbout id) cs
    → lookup (calls state cs).registry id ≡ lookup state.registry id
unfolding calls
calls-lookup id state [] h = refl
calls-lookup id state (c ∷ cs) h =
    calls-lookup id (call state c) cs h.1 ∙ call-lookup id state c h.0
