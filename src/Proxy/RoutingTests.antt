-- ===== src/Proxy/RoutingTests.antt =====
-- Routing with concrete texts and bodies.
use anycode.Base.{
  String, Option, str_eq, find, ◌<>◌, ◌≡◌, refl, true, false, none, some, [], ◌∷◌, str_eq_iff,
  arith, if◌then◌else◌,
}
use anycode.Config.{Backend, CliProfile, default_backend, default_defaults}
use anycode.Backend.State.{BackendStateInner, has_backend}
use anycode.Backend.State.Valid.{IsValid}
use anycode.Backend.Agents.{lookup, is_empty, format_marker}
use anycode.Proxy.Tree.{Tree, text, array, object, no_tree, tree, no_member, member, tree_json}
use anycode.Proxy.Markers.{
  or_else, strip_prefix, after, before, hook_context_prefix, valid_id, is_id_char,
  parse_marker_in_hook_context,
}
use anycode.Proxy.Routing.{
  extract_ac_marker, resolve_backend, route_model, model_backend, refused, subagent_not_registered,
}
use anycode.Proxy.Routing.Affinity.{
  routed_by, FirstText, subagent_start-resolve, subagent_stop-resolve,
}
use anycode.Proxy.Routing.Resolved.{Resolved, resolve_backend-Resolved}
use anycode.Proxy.Router.{Uri, authorized, dispatch, or_active}
use anycode.Proxy.Router.Teammate.{from_teammate, dispatch-teammate}
use anycode.Proxy.Hooks.{
  get, HookState, SubagentHookInput, handle_subagent_start, handle_subagent_stop,
}
use anycode.Proxy.Hooks.Calls.{HookCall, starts, calls}

abbrev post : String
post = "</system-reminder>"

abbrev hook_text : String
hook_text = "<system-reminder>SubagentStart hook additional context: ⟨AC:a1-b2⟩</system-reminder>"

abbrev message : Tree
message = object (member "role" (text "user") (member "content" (text hook_text) no_member))

abbrev body : Tree
body = object (member "messages" (array (tree message no_tree)) no_member)

abbrev fast : Backend
fast = record default_backend { name = "fast" }

abbrev profile : CliProfile
profile = record {
  defaults = default_defaults;
  backends = default_backend ∷ fast ∷ [];
  agents = none;
  claude_settings = [];
}

abbrev backends : BackendStateInner
backends = record {
  active_backend = "claude";
  config = profile;
  switch_log = record { timestamp = 0; old_backend = none; new_backend = "claude" } ∷ [];
  models_cached = false;
}

backends-IsValid : IsValid backends
backends-IsValid = record { configured = refl; logged = refl; chained = tt }

abbrev hooks : HookState
hooks = record {
  backend_state = backends;
  subagent_backend = some "fast";
  teammate_backend = none;
  registry = [];
}

abbrev other_start : HookCall
other_start = starts (record { agent_id = some "c3"; session_id = none })

marker_found : after hook_text hook_context_prefix ≡ some (" " <> (format_marker "a1-b2" <> post))
unfolding after strip_prefix format_marker
marker_found = refl

id_valid : valid_id "a1-b2" ≡ true
unfolding valid_id is_id_char
id_valid = refl

body-FirstText : FirstText tree_json body hook_text
body-FirstText = record {
  message = message;
  others = [];
  content = text hook_text;
  first = refl;
  from_user = refl;
  has_content = refl;
  is_text = refl;
}

subagent_start-resolve_example :
    let input : SubagentHookInput = record { agent_id = some "a1-b2"; session_id = none } in
    let started = handle_subagent_start hooks input in
    (started.1.additional_context ≡ some (format_marker "a1-b2"))
    × (resolve_backend tree_json backends none none
          (some body)
          (calls started.0 (other_start ∷ [])).registry
        ≡ routed_by tree_json "fast" (find (λ b. str_eq b.name "fast") backends.config.backends))
subagent_start-resolve_example =
    subagent_start-resolve tree_json hooks (other_start ∷ []) none backends "a1-b2" "fast" hook_text
      " " post body refl id_valid (refl, tt) body-FirstText marker_found refl

marker_extracted : extract_ac_marker tree_json body ≡ some "a1-b2"
unfolding extract_ac_marker parse_marker_in_hook_context after before strip_prefix valid_id
    is_id_char
marker_extracted = refl

subagent_stop-resolve_example :
    let input : SubagentHookInput = record { agent_id = some "a1-b2"; session_id = none } in
    let registry = (handle_subagent_stop hooks input).registry in
    resolve_backend tree_json backends none none (some body) registry ≡ (
      if is_empty registry
      then route_model tree_json backends (model_backend tree_json backends (some body))
      else refused (subagent_not_registered "a1-b2"))
subagent_stop-resolve_example =
    subagent_stop-resolve tree_json hooks none backends "a1-b2" body marker_extracted

registered_known :
    (id b : String)
    → lookup (("a1-b2", "fast") ∷ []) id ≡ some b
    → has_backend b (default_backend ∷ fast ∷ []) ≡ true
unfolding lookup
registered_known id b e = ground (arith, str_eq_iff "fast" b)

resolve_backend-Resolved_example :
    Resolved tree_json backends
      (some body)
      (("a1-b2", "fast") ∷ [])
      (resolve_backend tree_json backends none none (some body) (("a1-b2", "fast") ∷ []))
resolve_backend-Resolved_example =
    resolve_backend-Resolved tree_json backends (some body) (("a1-b2", "fast") ∷ [])
      backends-IsValid registered_known

abbrev with_agent : HookState
with_agent = record hooks { registry = ("a1", "fast") ∷ [] }

-- A parser that knows one text.
abbrev parse_uri : String → Option Uri
parse_uri s =
    if str_eq s "/v1/messages?beta=true"
    then some (record { path = "/v1/messages"; query = some "beta=true" })
    else none

dispatch-teammate_example :
    dispatch parse_uri with_agent (from_teammate "a1" "v1/messages" (some "beta=true") none)
    ≡ record {
      uri = record { path = "/v1/messages"; query = some "beta=true" };
      backend_override =
          or_else (lookup with_agent.registry "a1") (get with_agent.teammate_backend);
      active_backend =
          or_active with_agent
            (or_else (lookup with_agent.registry "a1") (get with_agent.teammate_backend));
    }
dispatch-teammate_example =
    dispatch-teammate parse_uri with_agent "a1" "v1/messages" (some "beta=true") none
      (record { path = "/v1/messages"; query = some "beta=true" }) (λ e. cc) refl refl

-- The token of the session is taken from three headers; a header that has another text is no harm.
authorized_test :
    authorized (some "t1") (("authorization", some "Bearer t1") ∷ ("x-api-key", none) ∷ []) ≡ true
unfolding authorized
authorized_test = refl

unauthorized_test :
    authorized (some "t1") (("authorization", some "t1") ∷ ("x-api-key", some "t2") ∷ []) ≡ false
unfolding authorized
unauthorized_test = refl
