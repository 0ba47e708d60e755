-- ===== src/Proxy/Routing.antt =====
-- Stage 2 of the pipeline (src/proxy/pipeline/routing.rs): which backend a request goes to.
pub mod Affinity
pub mod Resolved
use anycode.Base.{
  ℕ, String, Bool, true, false, not, Option, none, some, List, [], ◌∷◌, take, str_eq, if◌then◌else◌,
  ◌>>=◌,
}
use anycode.Config.{Backend}
use anycode.Backend.State.{
  BackendError, BackendStateInner, Result, ok, err, get_backend_config, validate_backend,
}
use anycode.Backend.Agents.{AgentRegistry, lookup, is_empty}
use anycode.Proxy.Json.{Json, array_at, str_at}
use anycode.Proxy.Markers.{strip_prefix, parse_marker_in_hook_context}

-- src/metrics/types.rs; a plugin's override has the same two fields.
pub record RoutingDecision : Type 0 where
  pub backend : String
  pub reason : String

abbrev pub BackendOverride : Type 0
BackendOverride = RoutingDecision

-- The errors of routing among those of src/proxy/error.rs; the text of the inner error is kept as
-- the error itself.
pub data ProxyError : Type 0 where
  backend_not_found : BackendError → ProxyError
  subagent_not_registered : String → ProxyError

pub data Routed : Type 0 where
  to_backend : Backend → RoutingDecision → Routed
  refused : ProxyError → Routed

-- The rest of a model's name after the prefix, if it names a backend.
abbrev pub named : BackendStateInner → Option String → Option String
named s none = none
named s (some rest) = if validate_backend s rest then some rest else none

abbrev pub or_else : Option String → Option String → Option String
or_else none o = o
or_else (some b) o = some b

unfoldable pub detect_marker_model : BackendStateInner → String → Option String
detect_marker_model s model =
    or_else (named s (strip_prefix model "marker-"))
      (or_else (named s (strip_prefix model "anycode-")) (named s (some model)))

abbrev pub max_messages_to_scan : ℕ
max_messages_to_scan = 3

module _ {V : Type 0} (json : Json V) where
  abbrev pub marker_in_blocks : List V → Option String
  marker_in_blocks [] = none
  marker_in_blocks (block ∷ blocks) =
      or_else (str_at json block "text" >>= parse_marker_in_hook_context) (marker_in_blocks blocks)

  abbrev pub marker_in_array : Option (List V) → Option String
  marker_in_array none = none
  marker_in_array (some blocks) = marker_in_blocks blocks

  -- A string, an array of blocks, or neither of them.
  abbrev pub marker_in_value : V → Option String → Option String
  marker_in_value content (some s) = parse_marker_in_hook_context s
  marker_in_value content none = marker_in_array (json.as_array content)

  abbrev pub marker_in_content : Option V → Option String
  marker_in_content none = none
  marker_in_content (some content) = marker_in_value content (json.as_str content)

  abbrev pub is_user : Option String → Bool
  is_user none = false
  is_user (some role) = str_eq role "user"

  abbrev pub marker_in_message : V → Option String
  marker_in_message msg =
      if not (is_user (str_at json msg "role"))
      then none
      else marker_in_content (json.get msg "content")

  abbrev pub marker_in_messages : List V → Option String
  marker_in_messages [] = none
  marker_in_messages (msg ∷ msgs) = or_else (marker_in_message msg) (marker_in_messages msgs)

  unfoldable pub extract_ac_marker : V → Option String
  extract_ac_marker body =
      array_at json body "messages" >>= λ msgs. marker_in_messages (take max_messages_to_scan msgs)

  abbrev pub found_backend : RoutingDecision → Result Backend → Routed
  found_backend decision (ok b) = to_backend b decision
  found_backend decision (err e) = refused (backend_not_found e)

  abbrev pub route_to : BackendStateInner → String → String → Routed
  route_to s id reason =
      found_backend (record { backend = id; reason = reason }) (get_backend_config s id)

  abbrev pub route_registered : BackendStateInner → String → Option String → Routed
  route_registered s id none = refused (subagent_not_registered id)
  route_registered s id (some backend) = route_to s backend "ac marker session affinity"

  abbrev pub route_model : BackendStateInner → Option String → Routed
  route_model s none = route_to s s.active_backend "active backend"
  route_model s (some backend) = route_to s backend "marker model"

  abbrev pub model_backend : BackendStateInner → Option V → Option String
  model_backend s parsed_body =
      parsed_body >>= λ body. str_at json body "model" >>= detect_marker_model s

  abbrev pub route_marker : BackendStateInner → Option V → AgentRegistry → Option String → Routed
  route_marker s parsed_body registry (some id) = route_registered s id (lookup registry id)
  route_marker s parsed_body registry none = route_model s (model_backend s parsed_body)

  -- No marker is looked for while no agent is registered.
  abbrev pub marker_of : Option V → AgentRegistry → Option String
  marker_of parsed_body registry =
      if not (is_empty registry) then parsed_body >>= extract_ac_marker else none

  unfoldable pub resolve_backend :
      BackendStateInner → Option String → Option BackendOverride → Option V → AgentRegistry → Routed
  unfolding extract_ac_marker detect_marker_model
  resolve_backend s override (some plugin) parsed_body registry =
      route_to s plugin.backend plugin.reason
  resolve_backend s (some backend) none parsed_body registry = route_to s backend "teammate route"
  resolve_backend s none none parsed_body registry =
      route_marker s parsed_body registry (marker_of parsed_body registry)
