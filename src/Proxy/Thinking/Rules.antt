-- ===== src/Proxy/Thinking/Rules.antt =====
-- What becomes of a block in the cache when a request is processed.
use anycode.Base.{
  ℕ, ◌+◌, ◌-◌, ◌≤◌, ◌<◌, String, ◌≡◌, ◌≢◌, refl, Bool, true, false, not, ◌&&◌, Option, none, some,
  List, [], ◌∷◌, Bytes, arith, ◌==◌, ltb, str_eq_iff, if◌then◌else◌, ◌∙◌, sym,
}
use anycode.Proxy.Json.{Json}
use anycode.Proxy.Thinking.{
  BlockInfo, ThinkingRegistry, on_backend_switch, register_block, in_set, is_empty,
  cleanup_old_sessions, cleanup_cache, confirm_blocks, has_history, extract_request_hashes,
  refreshed, filter_request,
}

-- No block is of a later session than the current one.
abbrev pub SessionsBounded : ThinkingRegistry → Type 0
SessionsBounded r =
    (h : ℕ) (info : BlockInfo) → r.blocks h ≡ some info → info.session ≤ r.current_session

-- Every block is of this session.
abbrev pub AllOfSession : ℕ → ThinkingRegistry → Type 0
AllOfSession session r =
    (h : ℕ) (info : BlockInfo) → r.blocks h ≡ some info → info.session ≡ session

-- What becomes of an entry: one of an old session goes; one that the request carries stays,
-- confirmed; the others of the current session stay if the request is uninformative, or if they are
-- unconfirmed and not older than the threshold. The module's documentation makes no exception for
-- uninformative requests.
abbrev pub ruled : ThinkingRegistry → List ℕ → ℕ → Bool → ℕ → Option BlockInfo → Option BlockInfo
ruled r hs now informative h none = none
ruled r hs now informative h (some info) =
    if not (info.session == r.current_session)
    then none
    else if in_set h hs
    then some (record info { confirmed = true })
    else if not informative
    then some info
    else if info.confirmed
    then none
    else if ltb r.orphan_threshold (now - info.registered_at)
    then none
    else some info

cleanup-ruled :
    (now : ℕ) (r : ThinkingRegistry) (h : ℕ) (history : Bool) (hs : List ℕ)
    → (if history
          then cleanup_cache (confirm_blocks r hs) hs now
          else cleanup_old_sessions (confirm_blocks r hs)).blocks
        h
      ≡ ruled r hs now (history && not (is_empty hs)) h (r.blocks h)
unfolding cleanup_cache cleanup_old_sessions confirm_blocks
cleanup-ruled now r h true [] = ground arith
cleanup-ruled now r h true (k ∷ hs) = ground arith
cleanup-ruled now r h false hs = ground arith

-- The entry of an old session does not stay.
pub ruled-old :
    (r : ThinkingRegistry) (hs : List ℕ) (now : ℕ) (b : Bool) (h : ℕ) (o : Option BlockInfo)
    → ((info : BlockInfo) → o ≡ some info → info.session < r.current_session)
    → ruled r hs now b h o ≡ none
ruled-old r hs now b h none old = refl
ruled-old r hs now b h (some info) old = ground (arith, old info refl)

pub on_backend_switch_lem :
    (r : ThinkingRegistry) (backend : String)
    → r.current_session + 1 < 18446744073709551616
    → r.current_backend ≢ backend
    → ((on_backend_switch r backend).current_session ≡ r.current_session + 1)
      × ((h : ℕ) → (on_backend_switch r backend).blocks h ≡ r.blocks h)
unfolding on_backend_switch
on_backend_switch_lem r backend lt ne = (
  ground (arith, str_eq_iff r.current_backend backend),
  λ h. ground (arith, str_eq_iff r.current_backend backend),
)

module _ {V : Type 0} (json : Json V) (hasher : Bytes → Bytes → ℕ → ℕ) where
  -- What a request does to the entry of a hash: an entry of an old session goes; one that the request
  -- carries stays, confirmed. The others of the current session all stay, confirmed ones too, if the
  -- request has no assistant message or carries no thinking block; else a confirmed one goes, and an
  -- unconfirmed one goes exactly if it is older than the threshold.
  pub filter_request-ruled :
      (now : ℕ) (r : ThinkingRegistry) (body : V) (h : ℕ)
      → (filter_request json hasher now r body).0.blocks h
        ≡ ruled r
            (extract_request_hashes json hasher body)
            now
            (has_history json body && not (is_empty (extract_request_hashes json hasher body)))
            h
            (r.blocks h)
  unfolding filter_request refreshed
  filter_request-ruled now r body h =
      cleanup-ruled now r h (has_history json body) (extract_request_hashes json hasher body)

  ruled-session :
      (r : ThinkingRegistry) (hs : List ℕ) (now : ℕ) (b : Bool) (h : ℕ) (o : Option BlockInfo)
      {info : BlockInfo}
      → ruled r hs now b h o ≡ some info
      → info.session ≡ r.current_session
  ruled-session r hs now b h none e = cc
  ruled-session r hs now b h (some i) {info} e = ground arith

  pub filter_request-session :
      (now : ℕ) (r : ThinkingRegistry) (body : V) (h : ℕ) {info : BlockInfo}
      → (filter_request json hasher now r body).0.blocks h ≡ some info
      → info.session ≡ r.current_session
  filter_request-session now r body h e =
      ruled-session r (extract_request_hashes json hasher body) now _ h (r.blocks h)
        (sym (filter_request-ruled now r body h) ∙ e)

  pub filter_request-current_session :
      (now : ℕ) (r : ThinkingRegistry) (body : V)
      → (filter_request json hasher now r body).0.current_session ≡ r.current_session
  unfolding filter_request refreshed cleanup_cache cleanup_old_sessions confirm_blocks
  filter_request-current_session now r body = ground arith

  -- In a registry that has no block of a later session: registering a block for a session that has
  -- begun, switching the backend (below the last session number of 64 bits) and processing a request
  -- all keep every block's session at most the current.
  pub steps-SessionsBounded :
      (now : ℕ) (r : ThinkingRegistry) (content : String) (session_id : ℕ) (backend : String)
      (body : V)
      → SessionsBounded r
      → session_id ≤ r.current_session
      → r.current_session + 1 < 18446744073709551616
      → SessionsBounded (register_block hasher now r content session_id)
        × SessionsBounded (on_backend_switch r backend)
        × SessionsBounded (filter_request json hasher now r body).0
  unfolding register_block on_backend_switch
  steps-SessionsBounded now r content s backend body bounded le lt = (
    λ h info e. ground (arith, bounded h info),
    λ h info e. ground (arith, bounded h info),
    λ h info e.
        ground
          (arith, filter_request-session now r body h e, filter_request-current_session now r body),
  )
