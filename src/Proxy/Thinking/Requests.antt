-- ===== src/Proxy/Thinking/Requests.antt =====
-- What becomes of the thinking blocks of a request's body.
use anycode.Base.{
  ℕ, ◌+◌, ◌<◌, String, ◌≡◌, ◌≢◌, refl, Bool, true, false, not, Option, none, some, List, [], ◌∷◌,
  Bytes, arith, if◌then◌else◌, ◌∙◌, is_some, ◌>>=◌, sym, All, All-map, subst,
}
use mathlib.Core.Option.{some-injective}
use anycode.Proxy.Json.{Json, array_at}
use anycode.Proxy.Truncate.{fast_hash}
use anycode.Proxy.Thinking.{
  ThinkingRegistry, BlockInfo, extract_thinking_content, on_backend_switch, is_thinking,
  extract_request_hashes, keeps, keeps_hash, retain_items, filter_content, filter_all,
  filter_message, filter_messages, filter_request_body, filter_request,
}
use anycode.Proxy.Thinking.Rules.{
  SessionsBounded, AllOfSession, filter_request-ruled, filter_request-session, ruled-old,
  on_backend_switch_lem,
}

module _ {V : Type 0} (json : Json V) where
  -- Every item of every message's content satisfies the predicate.
  abbrev pub ContentAll : (V → Type 0) → V → Type 0
  ContentAll P m = (items : List V) → array_at json m "content" ≡ some items → All P items

  abbrev pub BodyAll : (V → Type 0) → V → Type 0
  BodyAll P body = (ms : List V) → array_at json body "messages" ≡ some ms → All (ContentAll P) ms

  pub ContentAll-map :
      (P Q : V → Type 0) → ((v : V) → P v → Q v) → (m : V) → ContentAll P m → ContentAll Q m
  ContentAll-map P Q f m h items e = All-map P Q f items (h items e)

module _ {V : Type 0} (json : Json V) (hasher : Bytes → Bytes → ℕ → ℕ) where
  -- No thinking block, or one whose content is in the cache under its hash.
  pub data Cached (r : ThinkingRegistry) (item : V) : Type 0 where
    no_thinking : is_thinking json item ≡ false → Cached r item
    in_cache :
        (content : String) (info : BlockInfo)
        → extract_thinking_content json item ≡ some content
        → r.blocks (fast_hash hasher content) ≡ some info
        → Cached r item

  keeps-Cached : (r : ThinkingRegistry) (item : V) → keeps json hasher r item ≡ true → Cached r item
  keeps-Cached r item e =
      go (is_thinking json item) refl (extract_thinking_content json item) refl e
    where
      found :
          (content : String) (o : Option BlockInfo)
          → extract_thinking_content json item ≡ some content
          → r.blocks (fast_hash hasher content) ≡ o
          → is_some o ≡ true
          → Cached r item
      found content none f g h = cc
      found content (some info) f g h = in_cache content info f g

      go :
          (t : Bool)
          → is_thinking json item ≡ t
          → (o : Option String) → extract_thinking_content json item ≡ o
          → (if not t
              then true
              else keeps_hash json hasher r (o >>= λ c. some (fast_hash hasher c)))
            ≡ true
          → Cached r item
      go false f o g h = no_thinking f
      go true f none g h = cc
      go true f (some content) g h = found content (r.blocks (fast_hash hasher content)) g refl h

  retain_items-Cached :
      (r : ThinkingRegistry) (items : List V) → All (Cached r) (retain_items json hasher r items)
  retain_items-Cached r [] = tt
  retain_items-Cached r (item ∷ items) =
      go (keeps json hasher r item) refl (retain_items-Cached r items)
    where
      go :
          (b : Bool)
          → keeps json hasher r item ≡ b
          → All (Cached r) (retain_items json hasher r items)
          → All (Cached r) (
              if b
              then item ∷ retain_items json hasher r items
              else retain_items json hasher r items)
      go true e h = (keeps-Cached r item e, h)
      go false e h = h

  filter_message-Cached :
      (r : ThinkingRegistry) (m : V) → ContentAll json (Cached r) (filter_message json hasher r m).0
  filter_message-Cached r m = go (array_at json m "content") refl
    where
      go :
          (o : Option (List V))
          → array_at json m "content" ≡ o
          → ContentAll json (Cached r) (filter_content json hasher r m o).0
      go none e items f = cc
      go (some content) e items f =
          subst (All (Cached r))
            (some-injective _ _ (sym (json.get_put m "content" content _ e) ∙ f))
            (retain_items-Cached r content)

  filter_messages-Cached :
      (r : ThinkingRegistry) (ms : List V) (n : ℕ)
      → All (ContentAll json (Cached r)) (filter_messages json hasher r ms n).0
  filter_messages-Cached r [] n = tt
  filter_messages-Cached r (m ∷ ms) n = (filter_message-Cached r m, filter_messages-Cached r ms _)

  filter_request_body-Cached :
      (r : ThinkingRegistry) (body : V)
      → BodyAll json (Cached r) (filter_request_body json hasher r body).0
  unfolding filter_request_body
  filter_request_body-Cached r body = go (array_at json body "messages") refl
    where
      go :
          (o : Option (List V))
          → array_at json body "messages" ≡ o
          → BodyAll json (Cached r) (filter_all json hasher r body o).0
      go none e ms f = cc
      go (some ms) e ms' f =
          subst (All (ContentAll json (Cached r)))
            (some-injective _ _ (sym (json.get_put body "messages" ms _ e) ∙ f))
            (filter_messages-Cached r ms 0)

  -- After a request has been processed, every thinking block that is left in its body has a content
  -- whose hash is in the cache, and every block in the cache is of the current session.
  pub filter_request-Cached :
      (now : ℕ) (r : ThinkingRegistry) (body : V)
      → BodyAll json
          (Cached (filter_request json hasher now r body).0)
          (filter_request json hasher now r body).1.0
        × AllOfSession r.current_session (filter_request json hasher now r body).0
  unfolding filter_request
  filter_request-Cached now r body = (
    filter_request_body-Cached (filter_request json hasher now r body).0 body,
    λ h info e. filter_request-session json hasher now r body h e,
  )

  Cached-empty :
      (r : ThinkingRegistry) (item : V)
      → ((h : ℕ) → r.blocks h ≡ none)
      → Cached r item
      → is_thinking json item ≡ false
  Cached-empty r item empty (no_thinking e) = e
  Cached-empty r item empty (in_cache content info e f) = cc (empty (fast_hash hasher content))

  -- After a switch to another backend, of a registry that has no block of a later session and whose
  -- session number is below the last of 64 bits, a request keeps none of its thinking blocks and the
  -- cache is emptied: no block of the sessions before reaches the new backend.
  pub on_backend_switch-filter_request :
      (now : ℕ) (r : ThinkingRegistry) (backend : String) (body : V)
      → SessionsBounded r
      → r.current_session + 1 < 18446744073709551616
      → r.current_backend ≢ backend
      → BodyAll json
          (λ item. is_thinking json item ≡ false)
          (filter_request json hasher now (on_backend_switch r backend) body).1.0
        × ((h : ℕ)
            → (filter_request json hasher now (on_backend_switch r backend) body).0.blocks h ≡ none)
  on_backend_switch-filter_request now r backend body bounded lt ne =
      let switched = on_backend_switch r backend in
      let after = (filter_request json hasher now switched body).0 in
      let moved = on_backend_switch_lem r backend lt ne in
      let emptied = λ (h : ℕ).
        filter_request-ruled json hasher now switched body h
        ∙ ruled-old switched (extract_request_hashes json hasher body) now _ h (switched.blocks h)
            (λ info e. ground (arith, moved.0, bounded h info (sym (moved.1 h) ∙ e))) in
      (
        λ ms e.
            All-map (ContentAll json (Cached after))
              (ContentAll json (λ item. is_thinking json item ≡ false))
              (ContentAll-map json (Cached after) (λ item. is_thinking json item ≡ false)
                (λ item. Cached-empty after item emptied))
              ms ((filter_request-Cached now switched body).0 ms e),
        emptied,
      )
