-- ===== src/Proxy/Headers.antt =====
-- The headers of the request that goes upstream (src/proxy/pipeline/headers.rs, src/config/auth.rs).
-- A header's name is a string in lower case, as the crate `http` keeps it, so that comparing names
-- without regard to case is comparing them; its value is `to_str`, none for a value that is no text.
-- `lower` is `str::to_lowercase`.
pub mod Credentials
pub mod Sendable
use anycode.Base.{
  String, ◌<>◌, Bool, true, false, not, ◌&&◌, ◌||◌, Option, none, some, List, [], ◌∷◌, ◌++◌, str_eq,
  if◌then◌else◌,
}
use anycode.Config.{
  Backend, AuthType, api_key, bearer, passthrough, parse_auth_type, uses_own_credentials,
  CredentialStatus, configured, unconfigured, no_auth, resolve_credential, needs_thinking_compat,
}
use anycode.Proxy.Flags.{strip_thinking_from_beta_header, patch_anthropic_beta_header}

abbrev pub Header : Type 0
Header = String × Option String

abbrev pub auth_header : AuthType → CredentialStatus → Option (String × String)
auth_header api_key (configured key) = some ("x-api-key", key)
auth_header bearer (configured key) = some ("Authorization", "Bearer " <> key)
auth_header passthrough _ = none
auth_header _ (unconfigured _) = none
auth_header _ no_auth = none

abbrev pub auth_type : (String → String) → Backend → AuthType
auth_type lower b = parse_auth_type lower b.auth_type_str

unfoldable pub build_auth_header : (String → String) → Backend → Option (String × String)
build_auth_header lower b = auth_header (auth_type lower b) (resolve_credential lower b)

abbrev pub own_credentials : (String → String) → Backend → Bool
own_credentials lower b = uses_own_credentials (auth_type lower b)

-- An empty value drops the header.
abbrev pub patched_header : String → String → Option (String × String)
patched_header name patched = if not (str_eq patched "") then some (name, patched) else none

unfoldable pub patch : Bool → String → String
patch true value = patch_anthropic_beta_header value
patch false value = strip_thinking_from_beta_header value

-- What one header of the client becomes: `own` is `strip_auth_headers`, `compat` is
-- `needs_thinking_compat`. A value that is no text goes on to the last test, which drops it.
unfoldable pub forward_header : Bool → Bool → Bool → Header → Option (String × String)
forward_header own compat active (name, none) = none
forward_header own compat active (name, some value) =
    if str_eq name "host" || str_eq name "content-length"
    then none
    else if own && (str_eq name "authorization" || str_eq name "x-api-key")
    then none
    else if compat && str_eq name "anthropic-beta"
    then patched_header name (patch active value)
    else some (name, value)

abbrev pub push {ℓ} : {A : Type ℓ} → Option A → List A → List A
push none xs = xs
push (some x) xs = x ∷ xs

unfoldable pub forward_headers : Bool → Bool → Bool → List Header → List (String × String)
unfolding forward_header
forward_headers own compat active [] = []
forward_headers own compat active (h ∷ hs) =
    push (forward_header own compat active h) (forward_headers own compat active hs)

-- It never returns an error.
unfoldable pub build_headers :
    (String → String) → List Header → Backend → Bool → List (String × String)
unfolding forward_headers
build_headers lower incoming backend thinking_active =
    forward_headers (own_credentials lower backend) (needs_thinking_compat backend) thinking_active
      incoming
    ++ push (build_auth_header lower backend) []
