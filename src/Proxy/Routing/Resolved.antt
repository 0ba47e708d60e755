-- ===== src/Proxy/Routing/Resolved.antt =====
-- Routing leads to configured backends (src/proxy/pipeline/routing.rs).
use anycode.Base.{
  String, ◌≡◌, refl, sym, subst, Bool, true, false, Option, none, some, if◌then◌else◌, ◌>>=◌,
}
use anycode.Config.{Backend}
use anycode.Backend.State.{BackendStateInner, has_backend, validate_backend}
use anycode.Backend.State.Valid.{IsValid}
use anycode.Backend.State.Laws.{found_or-has_backend}
use anycode.Backend.Agents.{AgentRegistry, lookup}
use anycode.Proxy.Json.{Json, str_at}
use mathlib.Core.Option.{some-injective}
use anycode.Proxy.Markers.{strip_prefix}
use anycode.Proxy.Routing.{
  RoutingDecision, subagent_not_registered, Routed, to_backend, refused, named, or_else,
  detect_marker_model, found_backend, route_to, route_registered, route_model, route_marker,
  model_backend, marker_of, resolve_backend,
}

module _ {V : Type 0} (json : Json V) where
  -- The outcome of routing: a backend of the configuration, under the name that was decided on; or a
  -- refusal because the marker of the request names no registered agent.
  pub data Resolved (s : BackendStateInner) (body : Option V) (r : AgentRegistry)
      : Routed → Type 0 where
    goes_to :
        (b : Backend) (d : RoutingDecision)
        → b.name ≡ d.backend
        → has_backend d.backend s.config.backends ≡ true
        → Resolved s body r (to_backend b d)
    unknown_agent :
        (id : String)
        → marker_of json body r ≡ some id
        → lookup r id ≡ none
        → Resolved s body r (refused (subagent_not_registered id))

  route_to-Resolved :
      (s : BackendStateInner) (body : Option V) (r : AgentRegistry) (id reason : String)
      → has_backend id s.config.backends ≡ true
      → Resolved s body r (route_to json s id reason)
  route_to-Resolved s body r id reason h =
      let (b, e, f) = found_or-has_backend s id h in
      let decision : RoutingDecision = record { backend = id; reason = reason } in
      subst (λ o. Resolved s body r (found_backend json decision o)) (sym e)
        (goes_to b decision f h)

  or_else-valid :
      (P : String → Type 0) (o q : Option String) (b : String)
      → ((c : String) → o ≡ some c → P c)
      → ((c : String) → q ≡ some c → P c)
      → or_else o q ≡ some b
      → P b
  or_else-valid P none q b h k e = k b e
  or_else-valid P (some c) q b h k e = h b e

  named-valid :
      (s : BackendStateInner) (o : Option String) (b : String)
      → named s o ≡ some b
      → has_backend b s.config.backends ≡ true
  named-valid s none b e = cc
  named-valid s (some rest) b e = go (validate_backend s rest) refl e
    where
      go :
          (t : Bool)
          → validate_backend s rest ≡ t
          → (if t then some rest else none) ≡ some b
          → has_backend b s.config.backends ≡ true
      go true f g = subst (λ c. has_backend c s.config.backends ≡ true) (some-injective rest b g) f
      go false f g = cc

  -- A model's name leads to configured backends only.
  model_backend-valid :
      (s : BackendStateInner) (body : Option V) (b : String)
      → model_backend json s body ≡ some b
      → has_backend b s.config.backends ≡ true
  unfolding detect_marker_model
  model_backend-valid s none b e = cc
  model_backend-valid s (some body) b e = go (str_at json body "model") e
    where
      Valid : String → Type 0
      Valid c = has_backend c s.config.backends ≡ true

      go : (o : Option String) → (o >>= detect_marker_model s) ≡ some b → Valid b
      go none f = cc
      go (some model) f =
          or_else-valid Valid (named s (strip_prefix model "marker-")) _ b
            (named-valid s (strip_prefix model "marker-"))
            (λ c g.
              or_else-valid Valid (named s (strip_prefix model "anycode-")) (named s (some model)) c
                (named-valid s (strip_prefix model "anycode-")) (named-valid s (some model)) g)
            f

  -- In a valid state of the backends, with agents registered only under configured backends, a
  -- request that neither a plugin nor a route overrides goes to a configured backend, unless its
  -- marker names an agent that is not registered.
  pub resolve_backend-Resolved :
      (s : BackendStateInner) (body : Option V) (r : AgentRegistry)
      → IsValid s
      → ((id b : String) → lookup r id ≡ some b → has_backend b s.config.backends ≡ true)
      → Resolved s body r (resolve_backend json s none none body r)
  unfolding resolve_backend
  resolve_backend-Resolved s body r valid known = marker (marker_of json body r) refl
    where
      registered :
          (id : String) (o : Option String)
          → marker_of json body r ≡ some id
          → lookup r id ≡ o
          → Resolved s body r (route_registered json s id o)
      registered id none e f = unknown_agent id e f
      registered id (some b) e f =
          route_to-Resolved s body r b "ac marker session affinity" (known id b f)

      model :
          (o : Option String)
          → model_backend json s body ≡ o
          → Resolved s body r (route_model json s o)
      model none e = route_to-Resolved s body r s.active_backend "active backend" valid.configured
      model (some b) e =
          route_to-Resolved s body r b "marker model" (model_backend-valid s body b e)

      marker :
          (o : Option String)
          → marker_of json body r ≡ o
          → Resolved s body r (route_marker json s body r o)
      marker none e = model (model_backend json s body) refl
      marker (some id) e = registered id (lookup r id) e refl
