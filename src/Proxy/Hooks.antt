-- ===== src/Proxy/Hooks.antt =====
-- The hooks that register agents (src/proxy/hooks.rs), and `AgentBackendState` (src/backend/state.rs),
-- which is the optional name of a backend that it guards.
pub mod Calls
use anycode.Base.{String, Option, none, some}
use anycode.Backend.State.{BackendStateInner}
use anycode.Backend.Agents.{AgentRegistry, register, remove, format_marker}

abbrev pub AgentBackendState : Type 0
AgentBackendState = Option String

abbrev pub get : AgentBackendState → Option String
get inner = inner

abbrev pub set : AgentBackendState → Option String → AgentBackendState
set inner backend = backend

pub record HookState : Type 0 where
  pub backend_state : BackendStateInner
  pub subagent_backend : AgentBackendState
  pub teammate_backend : AgentBackendState
  pub registry : AgentRegistry

pub record SubagentHookInput : Type 0 where
  pub agent_id : Option String
  pub session_id : Option String

pub record HookSpecificOutput : Type 0 where
  pub hook_event_name : String
  pub additional_context : Option String

abbrev pub start : HookState → Option String → Option String → HookState × Option String
start state (some id) (some backend) =
    (record state { registry = register state.registry id backend }, some (format_marker id))
start state _ _ = (state, none)

unfoldable pub handle_subagent_start :
    HookState → SubagentHookInput → HookState × HookSpecificOutput
handle_subagent_start state input =
    let result = start state input.agent_id (get state.subagent_backend) in
    (result.0, record { hook_event_name = "SubagentStart"; additional_context = result.1 })

abbrev pub stop : HookState → Option String → HookState
stop state none = state
stop state (some id) = record state { registry = remove state.registry id }

-- The answer is always `OK`.
unfoldable pub handle_subagent_stop : HookState → SubagentHookInput → HookState
handle_subagent_stop state input = stop state input.agent_id

abbrev pub or_active : HookState → Option String → String
or_active state none = state.backend_state.active_backend
or_active state (some backend) = backend

-- The new state, and the backend that is answered.
unfoldable pub handle_teammate_start : HookState → String → HookState × String
handle_teammate_start state agent_id =
    let backend = or_active state (get state.teammate_backend) in
    (record state { registry = register state.registry agent_id backend }, backend)
