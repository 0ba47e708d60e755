-- ===== src/Proxy/Headers/Sendable.antt =====
-- Which of the client's headers go upstream, and what they ask of thinking
-- (src/proxy/pipeline/headers.rs).
use anycode.Base.{
  String, ◌≡◌, refl, ap, ◌∙◌, Bool, true, false, not, ◌&&◌, ◌||◌, none, some, List, [], ◌∷◌, ◌++◌,
  any, All, All-append, All-map, All-zip, filter, arith, str_eq, if◌then◌else◌, append-nil,
}
use anycode.Config.{
  Backend, AuthType, api_key, bearer, passthrough, CredentialStatus, configured, unconfigured,
  no_auth, resolve_credential, needs_thinking_compat,
}
use anycode.Proxy.Flags.{split, trim, is_adaptive, is_interleaved}
use anycode.Proxy.Flags.Trim.{
  Trimmed, patch_anthropic_beta_header-Trimmed, strip_thinking_from_beta_header-Trimmed,
}
use anycode.Proxy.Flags.Laws.{
  Neutral, split-patch_anthropic_beta_header, split-strip_thinking_from_beta_header,
}
use anycode.Proxy.Headers.{
  Header, auth_header, auth_type, build_auth_header, own_credentials, patched_header, patch,
  forward_header, push, forward_headers, build_headers,
}
use anycode.Proxy.Headers.Credentials.{is_auth, texts, filter-append}

-- Neither a header that the proxy sets itself, nor one that carries credentials or asks for features.
abbrev pub is_plain : String → Bool
is_plain name =
    not (str_eq name "host")
    && not (str_eq name "content-length")
    && not (is_auth name)
    && not (str_eq name "anthropic-beta")

abbrev plains : List (String × String) → List (String × String)
plains hs = filter (λ h. is_plain h.0) hs

forward_header-plain :
    (own compat active : Bool) (name value : String) (rest : List (String × String))
    → plains (push (forward_header own compat active (name, some value)) rest)
      ≡ (if is_plain name then (name, value) ∷ plains rest else plains rest)
unfolding forward_header
forward_header-plain own compat active name value rest = ground arith

forward_headers-plain :
    (own compat active : Bool) (hs : List Header)
    → plains (forward_headers own compat active hs) ≡ plains (texts hs)
unfolding forward_headers
forward_headers-plain own compat active [] = refl
forward_headers-plain own compat active ((name, none) ∷ hs) =
    forward_headers-plain own compat active hs
forward_headers-plain own compat active ((name, some value) ∷ hs) =
    forward_header-plain own compat active name value (forward_headers own compat active hs)
    ∙ ground (arith, forward_headers-plain own compat active hs)

-- A header that the proxy may not send on as it is: the length or the host of the client's request.
abbrev pub NotRecomputed : String × String → Type 0
NotRecomputed h = (str_eq h.0 "host" || str_eq h.0 "content-length") ≡ false

-- A flag, with or without white space around it.
abbrev pub AsksNot : (String → Bool) → String → Type 0
AsksNot asks part = asks (trim part) ≡ false

AsksNot-Trimmed :
    (asks : String → Bool) (ps : List String)
    → All (λ p. asks p ≡ false) ps
    → All Trimmed ps
    → All (AsksNot asks) ps
AsksNot-Trimmed asks ps h k =
    All-zip (λ p. asks p ≡ false) Trimmed (AsksNot asks) (λ p e t. ap asks t ∙ e) ps h k

-- What the flags of a header `anthropic-beta` may ask for.
pub data FlagsOk (thinking_active : Bool) (value : String) : Type 0 where
  interleaved :
      thinking_active ≡ true
      → any is_interleaved (split value) ≡ true
      → All (AsksNot is_adaptive) (split value)
      → FlagsOk thinking_active value
  neutral :
      thinking_active ≡ false
      → All (AsksNot is_adaptive) (split value)
      → All (AsksNot is_interleaved) (split value)
      → FlagsOk thinking_active value

patch-FlagsOk : (active : Bool) (value : String) → FlagsOk active (patch active value)
unfolding patch
patch-FlagsOk true value =
    let (_, one, kept) = split-patch_anthropic_beta_header value in
    interleaved refl one
      (AsksNot-Trimmed is_adaptive _ kept (patch_anthropic_beta_header-Trimmed value))
patch-FlagsOk false value =
    let kept = (split-strip_thinking_from_beta_header value).1 in
    let trimmed = strip_thinking_from_beta_header-Trimmed value in
    neutral refl
      (AsksNot-Trimmed is_adaptive _
        (All-map Neutral (λ p. is_adaptive p ≡ false) (λ p h. h.0) _ kept) trimmed)
      (AsksNot-Trimmed is_interleaved _
        (All-map Neutral (λ p. is_interleaved p ≡ false) (λ p h. h.1) _ kept) trimmed)

abbrev pub BetaOk : Bool → String × String → Type 0
BetaOk active h = str_eq h.0 "anthropic-beta" ≡ true → FlagsOk active h.1

-- Each header that a backend gets: none of the two that are computed anew, and no flag that it
-- does not take.
abbrev pub Sendable : Bool → Bool → String × String → Type 0
Sendable compat active h = NotRecomputed h × (compat ≡ true → BetaOk active h)

not_both : (a b : Bool) → (a && b) ≡ false → a ≡ true → b ≡ true → ⊥
not_both true true e i j = cc
not_both _ false e i j = cc
not_both false _ e i j = cc

forward_header-Sendable :
    (own compat active : Bool) (name value : String) (rest : List (String × String))
    → All (Sendable compat active) rest
    → All (Sendable compat active) (push (forward_header own compat active (name, some value)) rest)
unfolding forward_header
forward_header-Sendable own compat active name value rest h =
    go (str_eq name "host" || str_eq name "content-length") refl
      (own && (str_eq name "authorization" || str_eq name "x-api-key"))
      (compat && str_eq name "anthropic-beta") refl
  where
    go :
        (a : Bool)
        → (str_eq name "host" || str_eq name "content-length") ≡ a
        → (b c : Bool) → (compat && str_eq name "anthropic-beta") ≡ c
        → All (Sendable compat active) (
            push
              (if a
                then none
                else if b
                then none
                else if c
                then patched_header name (patch active value)
                else some (name, value))
              rest)
    go true e b c f = h
    go false e true c f = h
    go false e false false f =
        ((e, λ i j. absurd (not_both compat (str_eq name "anthropic-beta") f i j)), h)
    go false e false true f = patched (not (str_eq (patch active value) ""))
      where
        patched :
            (t : Bool)
            → All
                (Sendable compat active)
                (push (if t then some (name, patch active value) else none) rest)
        patched true = ((e, λ i j. patch-FlagsOk active value), h)
        patched false = h

forward_headers-Sendable :
    (own compat active : Bool) (hs : List Header)
    → All (Sendable compat active) (forward_headers own compat active hs)
unfolding forward_headers
forward_headers-Sendable own compat active [] = tt
forward_headers-Sendable own compat active ((name, none) ∷ hs) =
    forward_headers-Sendable own compat active hs
forward_headers-Sendable own compat active ((name, some value) ∷ hs) =
    forward_header-Sendable own compat active name value (forward_headers own compat active hs)
      (forward_headers-Sendable own compat active hs)

auth_header-Sendable :
    (compat active : Bool) (a : AuthType) (c : CredentialStatus)
    → All (Sendable compat active) (push (auth_header a c) [])
auth_header-Sendable compat active api_key (configured key) = ((refl, λ i j. cc), tt)
auth_header-Sendable compat active bearer (configured key) = ((refl, λ i j. cc), tt)
auth_header-Sendable compat active passthrough c = tt
auth_header-Sendable compat active api_key (unconfigured _) = tt
auth_header-Sendable compat active bearer (unconfigured _) = tt
auth_header-Sendable compat active api_key no_auth = tt
auth_header-Sendable compat active bearer no_auth = tt

auth_header-plain : (a : AuthType) (c : CredentialStatus) → plains (push (auth_header a c) []) ≡ []
auth_header-plain api_key (configured key) = refl
auth_header-plain bearer (configured key) = refl
auth_header-plain passthrough c = refl
auth_header-plain api_key (unconfigured _) = refl
auth_header-plain bearer (unconfigured _) = refl
auth_header-plain api_key no_auth = refl
auth_header-plain bearer no_auth = refl

-- Neither the host nor the length of the client's request goes upstream. When the backend needs its
-- thinking requests rewritten, each header `anthropic-beta` that goes upstream asks for interleaved
-- and not for adaptive thinking while thinking is active, and for neither of them otherwise, white
-- space around its flags aside. The
-- client's other headers that are text, credentials aside, go upstream as they are, in their order.
pub build_headers-Sendable :
    (lower : String → String) (incoming : List Header) (b : Backend) (active : Bool)
    → All (Sendable (needs_thinking_compat b) active) (build_headers lower incoming b active)
      × (filter (λ h. is_plain h.0) (build_headers lower incoming b active)
          ≡ filter (λ h. is_plain h.0) (texts incoming))
unfolding build_headers build_auth_header
build_headers-Sendable lower incoming b active =
    let own = own_credentials lower b in
    let compat = needs_thinking_compat b in
    let a = auth_type lower b in
    let c = resolve_credential lower b in
    (
      All-append (Sendable compat active) (forward_headers own compat active incoming) _
          (forward_headers-Sendable own compat active incoming)
          (auth_header-Sendable compat active a c),
      filter-append (λ h. is_plain h.0) (forward_headers own compat active incoming) _
          ∙ ap (λ xs. xs ++ plains (push (auth_header a c) []))
              (forward_headers-plain own compat active incoming)
          ∙ ap (◌++◌ (plains (texts incoming))) (auth_header-plain a c)
          ∙ append-nil (plains (texts incoming)),
    )
