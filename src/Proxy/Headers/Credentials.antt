-- ===== src/Proxy/Headers/Credentials.antt =====
-- Whose credentials go upstream (src/proxy/pipeline/headers.rs).
use anycode.Base.{
  String, ◌≡◌, refl, ap, ◌∙◌, Bool, true, false, not, ◌&&◌, ◌||◌, none, some, List, [], ◌∷◌, ◌++◌,
  All, filter, arith, str_eq, str_eq_iff, if◌then◌else◌, append-nil,
}
use anycode.Config.{
  Backend, AuthType, api_key, bearer, passthrough, CredentialStatus, configured, unconfigured,
  no_auth, uses_own_credentials, resolve_credential, needs_thinking_compat,
}
use anycode.Proxy.Headers.{
  Header, auth_header, auth_type, build_auth_header, own_credentials, forward_header, push,
  forward_headers, build_headers,
}

-- A header that carries credentials.
abbrev pub is_auth : String → Bool
is_auth name = str_eq name "authorization" || str_eq name "Authorization" || str_eq name "x-api-key"

-- The headers whose value is text.
abbrev pub texts : List Header → List (String × String)
texts [] = []
texts ((name, none) ∷ hs) = texts hs
texts ((name, some value) ∷ hs) = (name, value) ∷ texts hs

-- The names of a client's headers are in lower case.
abbrev pub InLowerCase : Header → Type 0
InLowerCase h = str_eq h.0 "Authorization" ≡ false

abbrev auths : List (String × String) → List (String × String)
auths hs = filter (λ h. is_auth h.0) hs

pub filter-append :
    (p : String × String → Bool) (xs ys : List (String × String))
    → filter p (xs ++ ys) ≡ filter p xs ++ filter p ys
filter-append p [] ys = refl
filter-append p (x ∷ xs) ys = ground (arith, filter-append p xs ys)

-- A name is not two of the names at once.
other_name : (name a b : String) → str_eq a b ≡ false → str_eq name a ≡ true → str_eq name b ≡ false
other_name name a b ne e = ap (λ n. str_eq n b) ((str_eq_iff name a).0 e) ∙ ne

-- What a client's header becomes, as far as credentials are concerned.
forward_header-auth :
    (own compat active : Bool) (name value : String) (rest : List (String × String))
    → str_eq name "Authorization" ≡ false
    → auths (push (forward_header own compat active (name, some value)) rest)
      ≡ (if not own && is_auth name then (name, value) ∷ auths rest else auths rest)
unfolding forward_header
forward_header-auth own compat active name value rest h = ground (
  arith,
  other_name name "host" "authorization" refl,
  other_name name "host" "x-api-key" refl,
  other_name name "content-length" "authorization" refl,
  other_name name "content-length" "x-api-key" refl,
  other_name name "anthropic-beta" "authorization" refl,
  other_name name "anthropic-beta" "x-api-key" refl,
)

forward_headers-auth :
    (own compat active : Bool) (hs : List Header)
    → All InLowerCase hs
    → auths (forward_headers own compat active hs) ≡ (if own then [] else auths (texts hs))
unfolding forward_headers
forward_headers-auth true compat active [] h = refl
forward_headers-auth false compat active [] h = refl
forward_headers-auth own compat active ((name, none) ∷ hs) h =
    forward_headers-auth own compat active hs h.1
forward_headers-auth own compat active ((name, some value) ∷ hs) h =
    forward_header-auth own compat active name value (forward_headers own compat active hs) h.0
    ∙ ground (arith, forward_headers-auth own compat active hs h.1)

auth_header-auth :
    (a : AuthType) (c : CredentialStatus)
    → auths (push (auth_header a c) []) ≡ push (auth_header a c) []
auth_header-auth api_key (configured key) = refl
auth_header-auth bearer (configured key) = refl
auth_header-auth passthrough c = refl
auth_header-auth api_key (unconfigured _) = refl
auth_header-auth bearer (unconfigured _) = refl
auth_header-auth api_key no_auth = refl
auth_header-auth bearer no_auth = refl

-- With the names of the client's headers in lower case: the credentials that go upstream are those of
-- the backend, if it has any configured, and none of the client's when the backend is of a type that
-- has its own; otherwise they are the client's, all of them that are text, in their order.
pub build_headers-credentials :
    (lower : String → String) (incoming : List Header) (b : Backend) (active : Bool)
    → All InLowerCase incoming
    → filter (λ h. is_auth h.0) (build_headers lower incoming b active) ≡ (
        if own_credentials lower b
        then push (build_auth_header lower b) []
        else filter (λ h. is_auth h.0) (texts incoming))
unfolding build_headers build_auth_header
build_headers-credentials lower incoming b active h =
    let own = own_credentials lower b in
    let compat = needs_thinking_compat b in
    filter-append (λ h. is_auth h.0) (forward_headers own compat active incoming) _
    ∙ ap (λ xs. xs ++ auths (push (build_auth_header lower b) []))
        (forward_headers-auth own compat active incoming h)
    ∙ ap (◌++◌ (if own then [] else auths (texts incoming)))
        (auth_header-auth (auth_type lower b) (resolve_credential lower b))
    ∙ go (auth_type lower b) (resolve_credential lower b)
  where
    client : List (String × String)
    client = auths (texts incoming)

    go :
        (a : AuthType) (c : CredentialStatus)
        → (if uses_own_credentials a then [] else client) ++ push (auth_header a c) []
          ≡ (if uses_own_credentials a then push (auth_header a c) [] else client)
    go api_key c = refl
    go bearer c = refl
    go passthrough c = append-nil client
