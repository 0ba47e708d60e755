-- ===== src/Proxy/Routing/Affinity.antt =====
-- A subagent keeps the backend it started with (src/proxy/pipeline/routing.rs, src/proxy/hooks.rs).
use anycode.Base.{
  String, ◌<>◌, ◌≡◌, refl, ap, ◌∙◌, Bool, true, false, not, Option, none, some, List, [], ◌∷◌, All,
  take, find, str_eq, if◌then◌else◌, ◌>>=◌,
}
use anycode.Config.{Backend}
use anycode.Backend.State.{BackendError, BackendStateInner, get_backend_config, found_or}
use anycode.Backend.State.Valid.{str_eq_self}
use anycode.Backend.Agents.{AgentRegistry, lookup, remove, is_empty, format_marker}
use anycode.Backend.Agents.Laws.{lookup-remove, lookup-register}
use anycode.Proxy.Json.{Json, array_at, str_at}
use anycode.Proxy.Markers.{
  after, hook_context_prefix, free_of_marker, valid_id, parse_marker_in_hook_context,
  parse-format_marker,
}
use anycode.Proxy.Routing.{
  subagent_not_registered, refused, or_else, marker_in_message, marker_in_messages, marker_in_value,
  Routed, to_backend, found_backend, backend_not_found, extract_ac_marker, route_to,
  route_registered, route_model, route_marker, model_backend, resolve_backend, is_user,
  marker_in_content,
}
use anycode.Proxy.Hooks.{
  HookState, SubagentHookInput, handle_subagent_start, handle_subagent_stop, start, get,
}
use anycode.Proxy.Hooks.Calls.{HookCall, NotAbout, calls, calls-lookup}

lookup-nonempty : (r : AgentRegistry) (id b : String) → lookup r id ≡ some b → is_empty r ≡ false
unfolding lookup
lookup-nonempty [] id b e = cc
lookup-nonempty (x ∷ r) id b e = refl

module _ {V : Type 0} (json : Json V) where
  -- The first message of a body is a text of the user.
  pub record FirstText (body : V) (s : String) : Type 0 where
    pub message : V
    pub others : List V
    pub content : V
    pub first : array_at json body "messages" ≡ some (message ∷ others)
    pub from_user : str_at json message "role" ≡ some "user"
    pub has_content : json.get message "content" ≡ some content
    pub is_text : json.as_str content ≡ some s

  first-marker :
      (body : V) (s id : String)
      → FirstText body s
      → parse_marker_in_hook_context s ≡ some id
      → extract_ac_marker json body ≡ some id
  unfolding extract_ac_marker
  first-marker body s id f e =
      ap (λ o. o >>= λ ms. marker_in_messages json (take 3 ms)) f.first
      ∙ ap (λ o. or_else o (marker_in_messages json (take 2 f.others))) found
    where
      found : marker_in_message json f.message ≡ some id
      found =
          ap
            (λ o.
              if not (is_user json o)
              then none
              else marker_in_content json (json.get f.message "content"))
            f.from_user
          ∙ ap (marker_in_content json) f.has_content
          ∙ ap (marker_in_value json f.content) f.is_text
          ∙ e

  -- A request whose body has the marker of an agent, while some agent is registered.
  resolve-marker :
      (s : BackendStateInner) (r : AgentRegistry) (id : String) (body : V)
      → extract_ac_marker json body ≡ some id
      → resolve_backend json s none none (some body) r ≡ (
          if is_empty r
          then route_model json s (model_backend json s (some body))
          else route_registered json s id (lookup r id))
  unfolding resolve_backend
  resolve-marker s r id body e = go (is_empty r) refl
    where
      go :
          (t : Bool)
          → is_empty r ≡ t
          → route_marker json s (some body) r (if not t then extract_ac_marker json body else none)
            ≡ (if t
                then route_model json s (model_backend json s (some body))
                else route_registered json s id (lookup r id))
      go true f = refl
      go false f = ap (route_marker json s (some body) r) e

  resolve-registered :
      (s : BackendStateInner) (r : AgentRegistry) (id backend : String) (body : V)
      → extract_ac_marker json body ≡ some id
      → lookup r id ≡ some backend
      → resolve_backend json s none none (some body) r
        ≡ route_to json s backend "ac marker session affinity"
  resolve-registered s r id backend body e f =
      resolve-marker s r id body e
      ∙ ap
          (λ t.
            if t
            then route_model json s (model_backend json s (some body))
            else route_registered json s id (lookup r id))
          (lookup-nonempty r id backend f)
      ∙ ap (route_registered json s id) f

  -- The first backend of a name is used, and a name without one is refused.
  abbrev pub routed_by : String → Option Backend → Routed
  routed_by id none = refused (backend_not_found (BackendError.backend_not_found id))
  routed_by id (some b) =
      to_backend b (record { backend = id; reason = "ac marker session affinity" })

  route_to-find :
      (s : BackendStateInner) (id : String)
      → route_to json s id "ac marker session affinity"
        ≡ routed_by id (find (λ b. str_eq b.name id) s.config.backends)
  unfolding get_backend_config
  route_to-find s id = go (find (λ b. str_eq b.name id) s.config.backends)
    where
      go :
          (o : Option Backend)
          → found_backend json
              (record { backend = id; reason = "ac marker session affinity" })
              (found_or id o)
            ≡ routed_by id o
      go none = refl
      go (some b) = refl

  -- A subagent whose start was announced while a backend was chosen for subagents, and whose
  -- identifier is not empty and has hexadecimal digits, `-` and `_` only: the hook answers with its
  -- marker. After whatever other agents do, and whichever backends are chosen then, take a request
  -- that no plugin and no route overrides, whose first message is a text of the user that holds that
  -- marker behind the hook's prefix, with no character `⟨` in between. It goes to the first backend with
  -- the name that was chosen when the subagent started, and is refused if there is none any more.
  pub subagent_start-resolve :
      (state : HookState) (cs : List HookCall) (session : Option String) (s : BackendStateInner)
      (id backend text mid post : String) (body : V)
      → get state.subagent_backend ≡ some backend
      → valid_id id ≡ true
      → All (NotAbout id) cs
      → FirstText body text
      → after text hook_context_prefix ≡ some (mid <> (format_marker id <> post))
      → free_of_marker mid ≡ true
      → let input : SubagentHookInput = record { agent_id = some id; session_id = session } in
        let started = handle_subagent_start state input in
        (started.1.additional_context ≡ some (format_marker id))
        × (resolve_backend json s none none (some body) (calls started.0 cs).registry
            ≡ routed_by backend (find (λ b. str_eq b.name backend) s.config.backends))
  unfolding handle_subagent_start resolve_backend
  subagent_start-resolve state cs session s id backend text mid post body chosen valid others f at
        free =
      let started = start state (some id) (get state.subagent_backend) in
      let registered =
        ap (λ o. lookup (start state (some id) o).0.registry id) chosen
        ∙ lookup-register state.registry id backend id
        ∙ ap (λ t. if t then some backend else lookup state.registry id) (str_eq_self id) in
      (
        ap (λ o. (start state (some id) o).1) chosen,
        resolve-registered s (calls started.0 cs).registry id backend body
              (first-marker body text id f (parse-format_marker text mid id post at free valid))
              (calls-lookup id started.0 cs others ∙ registered)
            ∙ route_to-find s backend,
      )

  -- After a subagent has been stopped, a request with its marker that no plugin and no route
  -- overrides is refused while another agent is registered; once none is, the marker is not looked
  -- for, and the request is routed by its model or to the active backend.
  pub subagent_stop-resolve :
      (state : HookState) (session : Option String) (s : BackendStateInner) (id : String) (body : V)
      → extract_ac_marker json body ≡ some id
      → let input : SubagentHookInput = record { agent_id = some id; session_id = session } in
        let registry = (handle_subagent_stop state input).registry in
        resolve_backend json s none none (some body) registry ≡ (
          if is_empty registry
          then route_model json s (model_backend json s (some body))
          else refused (subagent_not_registered id))
  unfolding handle_subagent_stop
  subagent_stop-resolve state session s id body e =
      let r = remove state.registry id in
      resolve-marker s r id body e
      ∙ ap
          (λ o.
            if is_empty r
            then route_model json s (model_backend json s (some body))
            else route_registered json s id o)
          (lookup-remove state.registry id id
            ∙ ap (λ t. if t then none else lookup state.registry id) (str_eq_self id))
