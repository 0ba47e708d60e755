-- ===== src/Proxy/Thinking.antt =====
-- `ThinkingRegistry` (src/proxy/thinking/registry.rs): which thinking blocks belong to the current
-- session. The hash map is a function; `now` is the instant of a call; what only the log uses (the
-- statistics of a cleanup, the number of confirmed blocks) is left out.
pub mod Rules
pub mod Requests
pub mod Unchanged
pub mod Stream
pub mod Session
use anycode.Base.{
  ℕ, ◌+◌, ◌-◌, ◌%◌, String, Bool, true, false, not, ◌&&◌, ◌||◌, Option, none, some, List, [], ◌∷◌,
  Bytes, ◌==◌, ltb, length, any, str_eq, is_some, if◌then◌else◌, ◌>>=◌,
}
use anycode.Proxy.Json.{Json, array_at, str_at}
use anycode.Proxy.Truncate.{fast_hash}

pub record BlockInfo : Type 0 where
  pub session : ℕ
  pub confirmed : Bool
  pub registered_at : ℕ

abbrev pub Blocks : Type 0
Blocks = ℕ → Option BlockInfo

pub record ThinkingRegistry : Type 0 where
  pub current_session : ℕ
  pub current_backend : String
  pub blocks : Blocks
  pub orphan_threshold : ℕ

-- Times in milliseconds.
abbrev pub with_orphan_threshold : ℕ → ThinkingRegistry
with_orphan_threshold threshold = record {
  current_session = 0;
  current_backend = "";
  blocks = λ h. none;
  orphan_threshold = threshold;
}

abbrev pub new : ThinkingRegistry
new = with_orphan_threshold 300000

-- `u64` and `u32` arithmetic, which wraps around.
abbrev pub wrap64 : ℕ → ℕ
wrap64 n = n % 18446744073709551616

abbrev pub wrap32 : ℕ → ℕ
wrap32 n = n % 4294967296

unfoldable pub on_backend_switch : ThinkingRegistry → String → ThinkingRegistry
on_backend_switch r new_backend = if str_eq r.current_backend new_backend then r else record r {
  current_session = wrap64 (r.current_session + 1);
  current_backend = new_backend;
}

abbrev pub insert : Blocks → ℕ → BlockInfo → Blocks
insert blocks hash info = λ h. if h == hash then some info else blocks h

-- A block of the same session is there already.
abbrev pub has_session : Option BlockInfo → ℕ → Bool
has_session none session_id = false
has_session (some info) session_id = info.session == session_id

-- `blocks.retain(...)`
abbrev pub keep_if : Option BlockInfo → (BlockInfo → Bool) → Option BlockInfo
keep_if none p = none
keep_if (some info) p = if p info then some info else none

abbrev pub retain : (ℕ → BlockInfo → Bool) → Blocks → Blocks
retain p blocks = λ h. keep_if (blocks h) (p h)

abbrev pub in_set : ℕ → List ℕ → Bool
in_set h hs = any (λ k. k == h) hs

-- Rule 1.
abbrev pub is_current : ThinkingRegistry → BlockInfo → Bool
is_current r info = info.session == r.current_session

unfoldable pub cleanup_old_sessions : ThinkingRegistry → ThinkingRegistry
cleanup_old_sessions r = record r { blocks = retain (λ h info. is_current r info) r.blocks }

-- Rules 1 to 3, in their order.
abbrev pub survives : ThinkingRegistry → List ℕ → ℕ → ℕ → BlockInfo → Bool
survives r hs now h info =
    if not (is_current r info)
    then false
    else if info.confirmed && not (in_set h hs)
    then false
    else if not info.confirmed && not (in_set h hs)
    then not (ltb r.orphan_threshold (now - info.registered_at))
    else true

abbrev pub is_empty : List ℕ → Bool
is_empty [] = true
is_empty (_ ∷ _) = false

unfoldable pub cleanup_cache : ThinkingRegistry → List ℕ → ℕ → ThinkingRegistry
unfolding cleanup_old_sessions
cleanup_cache r hs now =
    if is_empty hs
    then cleanup_old_sessions r
    else record r { blocks = retain (survives r hs now) r.blocks }

abbrev confirm_info : ThinkingRegistry → Option BlockInfo → Option BlockInfo
confirm_info r none = none
confirm_info r (some info) =
    if is_current r info && not info.confirmed
    then some (record info { confirmed = true })
    else some info

-- The blocks of the set, confirmed if they are of the current session.
unfoldable pub confirm_blocks : ThinkingRegistry → List ℕ → ThinkingRegistry
confirm_blocks r hs = record r {
  blocks = λ h. if in_set h hs then confirm_info r (r.blocks h) else r.blocks h;
}

module _ (hasher : Bytes → Bytes → ℕ → ℕ) where
  unfoldable pub register_block : ℕ → ThinkingRegistry → String → ℕ → ThinkingRegistry
  register_block now r content session_id =
      let hash = fast_hash hasher content in
      if has_session (r.blocks hash) session_id then r else record r {
        blocks =
            insert r.blocks hash
              (record { session = session_id; confirmed = false; registered_at = now });
      }

module _ {V : Type 0} (json : Json V) where
  abbrev content_of : V → String → Option String
  content_of item item_type =
      if str_eq item_type "thinking"
      then str_at json item "thinking"
      else if str_eq item_type "redacted_thinking"
      then str_at json item "data"
      else none

  unfoldable pub extract_thinking_content : V → Option String
  extract_thinking_content item = str_at json item "type" >>= content_of item

  abbrev type_is_thinking : Option String → Bool
  type_is_thinking none = false
  type_is_thinking (some t) = str_eq t "thinking" || str_eq t "redacted_thinking"

  -- `matches!(item_type, Some("thinking") | Some("redacted_thinking"))`
  abbrev pub is_thinking : V → Bool
  is_thinking item = type_is_thinking (str_at json item "type")

  abbrev is_assistant : V → Bool
  is_assistant m = elim (str_at json m "role") [ none ↦ false | some s ↦ str_eq s "assistant" ]

  unfoldable pub has_history : V → Bool
  has_history body = elim (array_at json body "messages") [
    | none ↦ false
    | some msgs ↦ any is_assistant msgs
  ]

module _ {V : Type 0} (json : Json V) (hasher : Bytes → Bytes → ℕ → ℕ) where
  register_items : ℕ → ℕ → List V → ThinkingRegistry → ThinkingRegistry
  register_items now session_id [] r = r
  register_items now session_id (item ∷ items) r =
      register_items now session_id items (elim (extract_thinking_content json item) [
        | none ↦ r
        | some thinking ↦ register_block hasher now r thinking session_id
      ])

  -- `parsed` is what `serde_json::from_slice` makes of the response's body.
  unfoldable pub register_from_response : ℕ → ThinkingRegistry → Option V → ℕ → ThinkingRegistry
  unfolding register_items
  register_from_response now r parsed session_id =
      elim (parsed >>= λ body. array_at json body "content") [
        | none ↦ r
        | some items ↦ register_items now session_id items r
      ]

  abbrev pub item_hash : V → Option ℕ
  item_hash item = extract_thinking_content json item >>= λ t. some (fast_hash hasher t)

  -- `hashes.insert(...)` on a set.
  abbrev add_hash : Option ℕ → List ℕ → List ℕ
  add_hash none hs = hs
  add_hash (some h) hs = if in_set h hs then hs else h ∷ hs

  collect_items : List V → List ℕ → List ℕ
  collect_items [] hs = hs
  collect_items (item ∷ items) hs = collect_items items (add_hash (item_hash item) hs)

  abbrev collect_content : Option (List V) → List ℕ → List ℕ
  collect_content none hs = hs
  collect_content (some items) hs = collect_items items hs

  collect_messages : List V → List ℕ → List ℕ
  collect_messages [] hs = hs
  collect_messages (m ∷ ms) hs =
      collect_messages ms (collect_content (array_at json m "content") hs)

  unfoldable pub extract_request_hashes : V → List ℕ
  unfolding collect_messages collect_items
  extract_request_hashes body = elim (array_at json body "messages") [
    | none ↦ []
    | some ms ↦ collect_messages ms []
  ]

  -- The closure of `content.retain`.
  abbrev pub keeps_hash : ThinkingRegistry → Option ℕ → Bool
  keeps_hash r none = false
  keeps_hash r (some h) = is_some (r.blocks h)

  abbrev pub keeps : ThinkingRegistry → V → Bool
  keeps r item = if not (is_thinking json item) then true else keeps_hash r (item_hash item)

  abbrev pub retain_items : ThinkingRegistry → List V → List V
  retain_items r [] = []
  retain_items r (item ∷ items) =
      let rest = retain_items r items in if keeps r item then item ∷ rest else rest

  -- A message with its content, and how many items it loses.
  abbrev pub filter_content : ThinkingRegistry → V → Option (List V) → V × ℕ
  filter_content r m none = (m, 0)
  filter_content r m (some content) = (
    json.put_array m "content" (retain_items r content),
    wrap32 (length content - length (retain_items r content)),
  )

  abbrev pub filter_message : ThinkingRegistry → V → V × ℕ
  filter_message r m = filter_content r m (array_at json m "content")

  abbrev pub filter_messages : ThinkingRegistry → List V → ℕ → List V × ℕ
  filter_messages r [] removed = ([], removed)
  filter_messages r (m ∷ ms) removed =
      let rest = filter_messages r ms (wrap32 (removed + (filter_message r m).1)) in
      ((filter_message r m).0 ∷ rest.0, rest.1)

  abbrev pub filter_all : ThinkingRegistry → V → Option (List V) → V × ℕ
  filter_all r body none = (body, 0)
  filter_all r body (some ms) =
      (json.put_array body "messages" (filter_messages r ms 0).0, (filter_messages r ms 0).1)

  unfoldable pub filter_request_body : ThinkingRegistry → V → V × ℕ
  filter_request_body r body = filter_all r body (array_at json body "messages")

  -- The registry after confirming and cleaning up.
  unfoldable pub refreshed : ℕ → ThinkingRegistry → V → ThinkingRegistry
  unfolding cleanup_cache cleanup_old_sessions confirm_blocks
  refreshed now r body =
      let hs = extract_request_hashes body in
      let confirmed = confirm_blocks r hs in
      if has_history json body
      then cleanup_cache confirmed hs now
      else cleanup_old_sessions confirmed

  -- The registry, the body, and the number of items removed from it.
  unfoldable pub filter_request : ℕ → ThinkingRegistry → V → ThinkingRegistry × (V × ℕ)
  unfolding filter_request_body refreshed
  filter_request now r body = let r' = refreshed now r body in (r', filter_request_body r' body)
