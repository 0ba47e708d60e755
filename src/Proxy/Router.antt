-- ===== src/Proxy/Router.antt =====
-- What happens to a request before the pipeline (src/proxy/router.rs): the check of the session's
-- token, and the backend of a teammate, whose identifier is the first segment of the path. Parsing a
-- URI is a parameter.
pub mod Teammate
use anycode.Base.{
  String, ◌<>◌, Bool, true, false, not, ◌||◌, Option, none, some, List, [], ◌∷◌, str_eq,
  if◌then◌else◌, ◌>>=◌,
}
use anycode.Backend.Agents.{lookup}
use anycode.Proxy.Headers.{Header}
use anycode.Proxy.Hooks.{HookState, get}
use anycode.Proxy.Markers.{strip_prefix, before, or_else}

-- `headers.get(name).and_then(|v| v.to_str().ok())`
abbrev pub header_text : List Header → String → Option String
header_text [] name = none
header_text ((n, value) ∷ headers) name =
    let rest = header_text headers name in if str_eq n name then value else rest

abbrev pub bearer_token : String → Option String
bearer_token value = or_else (strip_prefix value "Bearer ") (strip_prefix value "bearer ")

abbrev is_expected : String → Option String → Bool
is_expected expected none = false
is_expected expected (some t) = str_eq t expected

abbrev pub valid_token : String → List Header → Bool
valid_token expected headers =
    is_expected expected (header_text headers "x-session-token")
    || is_expected expected (header_text headers "authorization" >>= bearer_token)
    || is_expected expected (header_text headers "x-api-key")

-- Whether the request goes on; otherwise the answer is 401.
unfoldable pub authorized : Option String → List Header → Bool
unfolding strip_prefix
authorized none headers = true
authorized (some expected) headers = valid_token expected headers

pub record Uri : Type 0 where
  pub path : String
  pub query : Option String

-- The request as the handler gets it: whether it carries the `TeammateMarker`, and the override.
pub record Incoming : Type 0 where
  pub uri : Uri
  pub is_teammate : Bool
  pub backend_override : Option String

abbrev pub first_segment : Option String → String → String
first_segment none rest = rest
first_segment (some segment) rest = segment

abbrev pub non_empty : String → Option String
non_empty segment = if str_eq segment "" then none else some segment

abbrev pub segment_of : String → Option String
segment_of rest = non_empty (first_segment (before rest "/") rest)

abbrev pub candidate : String → Option String
candidate path = strip_prefix path "/" >>= segment_of

abbrev pub or_path : String → Option String → String
or_path path none = path
or_path path (some p) = p

abbrev pub or_root : String → String
or_root p = if str_eq p "" then "/" else p

abbrev pub new_path : String → String → String
new_path path id = or_root (or_path path (strip_prefix path ("/" <> id)))

abbrev pub with_query : String → Option String → String
with_query path none = path
with_query path (some q) = path <> ("?" <> q)

-- What the pipeline gets: the URI, the override, and the backend that the metrics name.
pub record Dispatched : Type 0 where
  pub uri : Uri
  pub backend_override : Option String
  pub active_backend : String

abbrev pub or_active : HookState → Option String → String
or_active state none = state.backend_state.active_backend
or_active state (some backend) = backend

abbrev pub or_uri : Uri → Option Uri → Uri
or_uri uri none = uri
or_uri uri (some new_uri) = new_uri

abbrev pub teammate_backend : HookState → Option String → Option String
teammate_backend state id = or_else (id >>= lookup state.registry) (get state.teammate_backend)

module _ (parse : String → Option Uri) where
  abbrev pub strip_agent : Uri → Option String → Uri
  strip_agent uri none = uri
  strip_agent uri (some id) = or_uri uri (parse (with_query (new_path uri.path id) uri.query))

  -- The backend of a teammate, whose identifier is `id`.
  abbrev pub dispatched : HookState → Incoming → Option String → Dispatched
  dispatched state req id = record {
    uri = strip_agent req.uri id;
    backend_override = teammate_backend state id;
    active_backend = or_active state (teammate_backend state id);
  }

  unfoldable pub dispatch : HookState → Incoming → Dispatched
  unfolding strip_prefix before lookup
  dispatch state req =
      if req.is_teammate then dispatched state req (candidate req.uri.path) else record {
        uri = req.uri;
        backend_override = req.backend_override;
        active_backend = or_active state req.backend_override;
      }
