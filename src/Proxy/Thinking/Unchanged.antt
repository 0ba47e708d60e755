-- ===== src/Proxy/Thinking/Unchanged.antt =====
-- A request whose thinking blocks are all of the current session passes as it is.
use anycode.Base.{
  ℕ, ◌≡◌, refl, Bool, true, false, not, Option, none, some, List, [], ◌∷◌, Bytes, arith,
  if◌then◌else◌, ap, ◌∙◌, All, All-map, All-zip, is_some,
}
use anycode.Proxy.Json.{Json, array_at}
use anycode.Proxy.Thinking.{
  keeps, BlockInfo, ThinkingRegistry, in_set, is_thinking, extract_request_hashes, item_hash,
  keeps_hash, retain_items, filter_content, filter_message, filter_all, filter_messages,
  filter_request_body, filter_request, add_hash, collect_items, collect_content, collect_messages,
}
use anycode.Proxy.Thinking.Rules.{filter_request-ruled}
use anycode.Proxy.Thinking.Requests.{ContentAll, BodyAll}

module _ {V : Type 0} (json : Json V) (hasher : Bytes → Bytes → ℕ → ℕ) where
  abbrev InSet : List ℕ → V → Type 0
  InSet hs item = (h : ℕ) → item_hash json hasher item ≡ some h → in_set h hs ≡ true

  in_set-add_hash :
      (o : Option ℕ) (hs : List ℕ) (h : ℕ)
      → in_set h hs ≡ true
      → in_set h (add_hash json hasher o hs) ≡ true
  in_set-add_hash none hs h e = e
  in_set-add_hash (some k) hs h e = ground arith

  in_set-add_hash-some : (hs : List ℕ) (h : ℕ) → in_set h (add_hash json hasher (some h) hs) ≡ true
  in_set-add_hash-some hs h = ground arith

  in_set-collect_items :
      (items : List V) (hs : List ℕ) (h : ℕ)
      → in_set h hs ≡ true
      → in_set h (collect_items json hasher items hs) ≡ true
  unfolding collect_items
  in_set-collect_items [] hs h e = e
  in_set-collect_items (item ∷ items) hs h e =
      in_set-collect_items items _ h (in_set-add_hash (item_hash json hasher item) hs h e)

  collect_items-InSet :
      (items : List V) (hs : List ℕ) → All (InSet (collect_items json hasher items hs)) items
  unfolding collect_items
  collect_items-InSet [] hs = tt
  collect_items-InSet (item ∷ items) hs = (
    λ h e.
        in_set-collect_items items _ h
          (ap (λ o. in_set h (add_hash json hasher o hs)) e ∙ in_set-add_hash-some hs h),
    collect_items-InSet items (add_hash json hasher (item_hash json hasher item) hs),
  )

  in_set-collect_content :
      (o : Option (List V)) (hs : List ℕ) (h : ℕ)
      → in_set h hs ≡ true
      → in_set h (collect_content json hasher o hs) ≡ true
  in_set-collect_content none hs h e = e
  in_set-collect_content (some items) hs h e = in_set-collect_items items hs h e

  in_set-collect_messages :
      (ms : List V) (hs : List ℕ) (h : ℕ)
      → in_set h hs ≡ true
      → in_set h (collect_messages json hasher ms hs) ≡ true
  unfolding collect_messages
  in_set-collect_messages [] hs h e = e
  in_set-collect_messages (m ∷ ms) hs h e =
      in_set-collect_messages ms _ h (in_set-collect_content (array_at json m "content") hs h e)

  collect_messages-InSet :
      (ms : List V) (hs : List ℕ)
      → All (ContentAll json (InSet (collect_messages json hasher ms hs))) ms
  unfolding collect_messages
  collect_messages-InSet [] hs = tt
  collect_messages-InSet (m ∷ ms) hs = (
    λ items e.
        All-map (InSet (collect_items json hasher items hs)) _
          (λ item k h f.
            in_set-collect_messages ms _ h
              (ap (λ o. in_set h (collect_content json hasher o hs)) e ∙ k h f))
          items (collect_items-InSet items hs),
    collect_messages-InSet ms (collect_content json hasher (array_at json m "content") hs),
  )

  -- No thinking block, or one that is registered for the current session.
  abbrev pub Owned : ThinkingRegistry → V → Type 0
  Owned r item =
      is_thinking json item ≡ true
      → (h : ℕ) × (info : BlockInfo) × (item_hash json hasher item ≡ some h)
        × (r.blocks h ≡ some info)
        × (info.session ≡ r.current_session)

  -- The filter keeps the item.
  abbrev Kept : ThinkingRegistry → V → Type 0
  Kept r item = keeps json hasher r item ≡ true

  module _ (now : ℕ) (r : ThinkingRegistry) (body : V) where
    abbrev after : ThinkingRegistry
    after = (filter_request json hasher now r body).0

    Owned-Kept :
        (item : V)
        → InSet (extract_request_hashes json hasher body) item
        → Owned r item
        → Kept after item
    Owned-Kept item carried owned = go (is_thinking json item) refl
      where
        go :
            (t : Bool)
            → is_thinking json item ≡ t
            → (if not t then true else keeps_hash json hasher after (item_hash json hasher item))
              ≡ true
        go false e = refl
        go true e =
            let (h, info, k, b, s) = owned e in
            let kept : after.blocks h ≡ some (record info { confirmed = true }) =
              filter_request-ruled json hasher now r body h
              ∙ rw b (ground (arith, carried h k, s)) in
            rw k (ap is_some kept)

    retain_items-same :
        (items : List V) → All (Kept after) items → retain_items json hasher after items ≡ items
    retain_items-same [] h = refl
    retain_items-same (item ∷ items) h = rw (h.0, retain_items-same items h.1) refl

    filter_message-same :
        (m : V) → ContentAll json (Kept after) m → filter_message json hasher after m ≡ (m, 0)
    filter_message-same m h = go (array_at json m "content") refl
      where
        go :
            (o : Option (List V))
            → array_at json m "content" ≡ o
            → filter_content json hasher after m o ≡ (m, 0)
        go none e = refl
        go (some content) e =
            rw (retain_items-same content (h content e), json.put_same m "content" content e)
              (ap (λ n. (m, n)) (omega arith))

    filter_messages-same :
        (ms : List V)
        → All (ContentAll json (Kept after)) ms
        → filter_messages json hasher after ms 0 ≡ (ms, 0)
    filter_messages-same [] h = refl
    filter_messages-same (m ∷ ms) h =
        rw (filter_message-same m h.0, filter_messages-same ms h.1) refl

    carried-InSet :
        (ms : List V)
        → array_at json body "messages" ≡ some ms
        → All (ContentAll json (InSet (extract_request_hashes json hasher body))) ms
    unfolding extract_request_hashes
    carried-InSet ms e = rw (extract_request_hashes, e) (collect_messages-InSet ms [])

    all-Kept : BodyAll json (Owned r) body → BodyAll json (Kept after) body
    all-Kept owned ms e =
        All-zip (ContentAll json (InSet (extract_request_hashes json hasher body)))
          (ContentAll json (Owned r)) (ContentAll json (Kept after))
          (λ m carried o items f. All-zip _ _ _ Owned-Kept items (carried items f) (o items f)) ms
          (carried-InSet ms e) (owned ms e)

    -- If every thinking block of a request is registered for the current session, the request's body
    -- is left as it is, and the number of removed blocks is zero.
    pub filter_request-Owned :
        BodyAll json (Owned r) body → (filter_request json hasher now r body).1 ≡ (body, 0)
    unfolding filter_request filter_request_body
    filter_request-Owned owned = go (array_at json body "messages") refl
      where
        go :
            (o : Option (List V))
            → array_at json body "messages" ≡ o
            → filter_all json hasher after body o ≡ (body, 0)
        go none e = refl
        go (some ms) e =
            rw (filter_messages-same ms (all-Kept owned ms e))
              (ap (λ v. (v, 0)) (json.put_same body "messages" ms e))
