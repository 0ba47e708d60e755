-- ===== src/Proxy/Tests.antt =====
-- The thinking registry with a concrete JSON value and a concrete hash.
use anycode.Base.{
  ℕ, String, ◌≡◌, ◌≢◌, refl, true, false, not, ◌&&◌, none, some, List, Bytes, arith, str_eq_iff,
  subst, All,
}
use mathlib.Core.Option.{some-injective}
use anycode.Base.Utf8.{to_utf8}
use anycode.Proxy.Tree.{
  Tree, number, text, array, object, no_tree, tree, no_member, member, tree_json,
}
use anycode.Proxy.Json.{array_at}
use anycode.Proxy.Truncate.{fast_hash}
use anycode.Proxy.Sse.{SseEvent}
use anycode.Proxy.Thinking
use anycode.Proxy.Thinking.{
  BlockInfo, ThinkingRegistry, on_backend_switch, register_block, filter_request, is_thinking,
  extract_request_hashes, has_history, is_empty,
}
use anycode.Proxy.Thinking.Rules.{SessionsBounded, AllOfSession, ruled, filter_request-ruled}
use anycode.Proxy.Thinking.Requests.{
  BodyAll, Cached, filter_request-Cached, on_backend_switch-filter_request,
}
use anycode.Proxy.Thinking.Unchanged.{Owned, filter_request-Owned}
use anycode.Proxy.Thinking.Session.{begin_request, none_yet, begin_request-late_block}

-- The length stands for the hash.
abbrev by_length : Bytes → Bytes → ℕ → ℕ
by_length prefix suffix n = n

abbrev thought : Tree
thought = object (member "type" (text "thinking") (member "thinking" (text "abc") no_member))

abbrev message : Tree
message =
    object
      (member "role" (text "assistant") (member "content" (array (tree thought no_tree)) no_member))

abbrev request : Tree
request = object (member "messages" (array (tree message no_tree)) no_member)

abbrev block : BlockInfo
block = record { session = 1; confirmed = false; registered_at = 5 }

abbrev registry : ThinkingRegistry
registry = record Thinking.new {
  current_session = 1;
  current_backend = "a";
  blocks = Thinking.insert (λ h. none) 3 block;
}

registry-SessionsBounded : SessionsBounded registry
registry-SessionsBounded h info e = ground arith

filter_request-ruled_example :
    (filter_request tree_json by_length 9 registry request).0.blocks 3
    ≡ ruled registry
        (extract_request_hashes tree_json by_length request)
        9
        (has_history tree_json request
          && not (is_empty (extract_request_hashes tree_json by_length request)))
        3
        (registry.blocks 3)
filter_request-ruled_example = filter_request-ruled tree_json by_length 9 registry request 3

filter_request-Cached_example :
    BodyAll tree_json
      (Cached tree_json by_length (filter_request tree_json by_length 9 registry request).0)
      (filter_request tree_json by_length 9 registry request).1.0
    × AllOfSession 1 (filter_request tree_json by_length 9 registry request).0
filter_request-Cached_example = filter_request-Cached tree_json by_length 9 registry request

a-ne-b : registry.current_backend ≢ "b"
a-ne-b e = let f : false ≡ true = (str_eq_iff "a" "b").1 e in cc f

on_backend_switch-filter_request_example :
    BodyAll tree_json
      (λ item. is_thinking tree_json item ≡ false)
      (filter_request tree_json by_length 9 (on_backend_switch registry "b") request).1.0
    × ((h : ℕ)
        → (filter_request tree_json by_length 9 (on_backend_switch registry "b") request).0.blocks h
          ≡ none)
on_backend_switch-filter_request_example =
    on_backend_switch-filter_request tree_json by_length 9 registry "b" request
      registry-SessionsBounded (omega arith) a-ne-b

thought-Owned : Owned tree_json by_length registry thought
unfolding Thinking.extract_thinking_content fast_hash to_utf8
thought-Owned e = (3, block, refl, refl, refl)

request-Owned : BodyAll tree_json (Owned tree_json by_length registry) request
request-Owned ms e = subst (All _) (some-injective _ _ e) (content, tt)
  where
    content :
        (items : List Tree)
        → array_at tree_json message "content" ≡ some items
        → All (Owned tree_json by_length registry) items
    content items f = subst (All _) (some-injective _ _ f) (thought-Owned, tt)

filter_request-Owned_example :
    (filter_request tree_json by_length 9 registry request).1 ≡ (request, 0)
filter_request-Owned_example =
    filter_request-Owned tree_json by_length 9 registry request request-Owned

abbrev event : String → Tree → SseEvent Tree
event t payload = record { event_type = t; payload = payload }

abbrev first_event : ℕ → SseEvent Tree
first_event i = event "content_block_start" (
    object (
      member "index" (number i) (
        member "content_block"
          (object (member "type" (text "thinking") (member "thinking" (text "") no_member)))
          no_member)))

abbrev piece : ℕ → String → SseEvent Tree
piece i s = event "content_block_delta" (
    object (
      member "index" (number i) (
        member "delta"
          (object (member "type" (text "thinking_delta") (member "thinking" (text s) no_member)))
          no_member)))

abbrev last_event : ℕ → SseEvent Tree
last_event i = event "content_block_stop" (object (member "index" (number i) no_member))

begin_request-late_block_example :
    (filter_request tree_json by_length 12
        (register_block by_length 11 (begin_request (begin_request registry "a").0 "b").0 "abc" 1)
        request).0.blocks
      (fast_hash by_length "abc")
    ≡ none
unfolding begin_request on_backend_switch
begin_request-late_block_example =
    begin_request-late_block tree_json by_length registry (begin_request registry "a").0 "a" "b"
      "abc" request 11 12 none_yet a-ne-b (omega arith)
