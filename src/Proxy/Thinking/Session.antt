-- ===== src/Proxy/Thinking/Session.antt =====
-- `TransformerRegistry` and `ThinkingSession` (src/proxy/thinking/mod.rs): many requests share one
-- registry behind a mutex, so their calls interleave as a sequence of whole steps. A session is the
-- number that a request captures when it begins.
use anycode.Base.{
  ℕ, ◌+◌, ◌≤◌, ◌<◌, String, ◌≡◌, ◌≢◌, refl, Option, none, some, Bytes, arith, ==_iff, ◌∙◌,
}
use anycode.Proxy.Json.{Json}
use anycode.Proxy.Truncate.{fast_hash}
use anycode.Proxy.Thinking.{
  BlockInfo, ThinkingRegistry, on_backend_switch, register_block, filter_request,
  extract_request_hashes,
}
use anycode.Proxy.Thinking.Rules.{
  ruled-old, on_backend_switch_lem, filter_request-ruled, filter_request-current_session,
}

-- The registry, and the session that the request holds from then on.
unfoldable pub begin_request : ThinkingRegistry → String → ThinkingRegistry × ℕ
begin_request r backend = let r' = on_backend_switch r backend in (r', r'.current_session)

abbrev pub notify_backend_switch : ThinkingRegistry → String → ThinkingRegistry
notify_backend_switch = on_backend_switch

module _ {V : Type 0} (json : Json V) (hasher : Bytes → Bytes → ℕ → ℕ) where
  -- What the other requests do between two calls of one request, in any order: begin, filter a body,
  -- register a block for the session they hold.
  pub data Steps (r : ThinkingRegistry) : ThinkingRegistry → Type 0 where
    none_yet : Steps r r
    begins :
        {q : ThinkingRegistry} (backend : String)
        → q.current_session + 1 < 18446744073709551616
        → Steps r q
        → Steps r (begin_request q backend).0
    filters :
        {q : ThinkingRegistry} (now : ℕ) (body : V)
        → Steps r q
        → Steps r (filter_request json hasher now q body).0
    registers :
        {q : ThinkingRegistry} (now : ℕ) (content : String) (session_id : ℕ)
        → Steps r q
        → Steps r (register_block hasher now q content session_id)

  register_block-current_session :
      (now : ℕ) (r : ThinkingRegistry) (content : String) (s : ℕ)
      → (register_block hasher now r content s).current_session ≡ r.current_session
  unfolding register_block
  register_block-current_session now r content s = ground arith

  on_backend_switch-le :
      (r : ThinkingRegistry) (backend : String)
      → r.current_session + 1 < 18446744073709551616
      → r.current_session ≤ (on_backend_switch r backend).current_session
  unfolding on_backend_switch
  on_backend_switch-le r backend lt = ground arith

  Steps-le : (r q : ThinkingRegistry) → Steps r q → r.current_session ≤ q.current_session
  unfolding begin_request
  Steps-le r q none_yet = omega arith
  Steps-le r q (begins {q = t} backend lt w) =
      omega (arith, on_backend_switch-le t backend lt, Steps-le r t w)
  Steps-le r q (filters {q = t} now body w) =
      omega (arith, filter_request-current_session json hasher now t body, Steps-le r t w)
  Steps-le r q (registers {q = t} now content s w) =
      omega (arith, register_block-current_session now t content s, Steps-le r t w)

  -- The entry of a block that was just registered is of the given session.
  register_block-session :
      (now : ℕ) (r : ThinkingRegistry) (content : String) (s : ℕ) (info : BlockInfo)
      → (register_block hasher now r content s).blocks (fast_hash hasher content) ≡ some info
      → info.session ≡ s
  unfolding register_block
  register_block-session now r content s info e = go (r.blocks (fast_hash hasher content)) refl
    where
      go : (o : Option BlockInfo) → r.blocks (fast_hash hasher content) ≡ o → info.session ≡ s
      go o f = ground (arith, ==_iff info.session s)

  -- A response that comes in late: a request begins, other requests take any steps, and one of them
  -- switches to another backend, all with session numbers below the last of 64 bits. A block that is then registered under the session of the first
  -- request is gone after the next request has been filtered, whatever the cache held for it before.
  pub begin_request-late_block :
      (r q : ThinkingRegistry) (backend other content : String) (body : V) (now later : ℕ)
      → Steps (begin_request r backend).0 q
      → q.current_backend ≢ other
      → q.current_session + 1 < 18446744073709551616
      → (filter_request json hasher later
            (register_block hasher now
              (begin_request q other).0
              content
              (begin_request r backend).1)
            body).0.blocks
          (fast_hash hasher content)
        ≡ none
  unfolding begin_request
  begin_request-late_block r q backend other content body now later w ne lt =
      let s = (begin_request r backend).1 in
      let moved = on_backend_switch q other in
      let late = register_block hasher now moved content s in
      let h = fast_hash hasher content in
      filter_request-ruled json hasher later late body h
      ∙ ruled-old late (extract_request_hashes json hasher body) later _ h (late.blocks h)
          (λ info e. omega (
            arith,
            register_block-session now moved content s info e,
            register_block-current_session now moved content s,
            (on_backend_switch_lem q other lt ne).0,
            Steps-le (begin_request r backend).0 q w,
          ))
