-- ===== src/Proxy/TransformTests.antt =====
-- The rewriting of requests with a concrete JSON value and a concrete hash.
use anycode.Base.{
  ℕ, String, Option, white_space, ◌≡◌, refl, true, false, none, some, List, [], ◌∷◌, Bytes, All,
  filter, str_eq, if◌then◌else◌, ◌&&◌, ◌>>=◌, codes,
}
use anycode.Config.{
  Backend, default_backend, needs_thinking_compat, resolve_model, parse_auth_type,
  resolve_credential,
}
use anycode.Base.Utf8.{to_utf8}
use anycode.Proxy.Truncate.{fast_hash}
use anycode.Proxy.Tree.{
  Tree, number, text, array, object, no_tree, tree, no_member, member, tree_json,
}
use anycode.Proxy.Json.{str_at, u64_at}
use anycode.Proxy.TreeEdit.{tree_edit}
use anycode.Proxy.Thinking
use anycode.Proxy.Thinking.{
  ThinkingRegistry, filter_request, has_history, extract_thinking_content, extract_request_hashes,
}
use anycode.Proxy.Transform.{
  transform_body, transform_json, convert_adaptive_thinking, is_adaptive, enabled,
}
use anycode.Proxy.Transform.Budget.{wanted_budget, enabled_value, convert_adaptive_thinking_lem}
use anycode.Proxy.Transform.Sent.{Sent}
use anycode.Proxy.Flags.{patch_anthropic_beta_header, strip_thinking_from_beta_header}
use anycode.Proxy.Headers.{Header, own_credentials, push, patch, build_auth_header, build_headers}
use anycode.Proxy.Headers.Credentials.{is_auth, texts, build_headers-credentials}
use anycode.Proxy.Headers.Sendable.{Sendable, is_plain, build_headers-Sendable}

abbrev by_length : Bytes → Bytes → ℕ → ℕ
by_length prefix suffix n = n

abbrev thought : Tree
thought = object (member "type" (text "thinking") (member "thinking" (text "abc") no_member))

abbrev answer : Tree
answer =
    object
      (member "role" (text "assistant") (member "content" (array (tree thought no_tree)) no_member))

abbrev adaptive : Tree
adaptive = object (member "type" (text "adaptive") no_member)

abbrev request : Tree
request = object (
    member "model" (text "claude-opus") (
      member "max_tokens" (number 5000)
        (member "thinking" adaptive (member "messages" (array (tree answer no_tree)) no_member))))

abbrev deepseek : Backend
deepseek = record default_backend {
  name = "deepseek";
  base_url = "https://api.deepseek.com";
  auth_type_str = "bearer";
  api_key = some "key";
  model_opus = some "deepseek-chat";
}

abbrev registry : ThinkingRegistry
registry = record Thinking.new { current_session = 1; current_backend = "deepseek" }

-- The unknown block and `thinking` are gone, and the model is the backend's.
transform_test :
    (transform_json tree_edit by_length 9 deepseek (some registry) request).body
    ≡ object (
        member "model" (text "deepseek-chat") (
          member "max_tokens" (number 5000) (
            member "messages"
              (array (
                tree
                  (object
                    (member "role" (text "assistant") (member "content" (array no_tree) no_member)))
                  no_tree))
              no_member)))
unfolding transform_json filter_request has_history needs_thinking_compat resolve_model
    extract_thinking_content extract_request_hashes fast_hash to_utf8
transform_test = refl

-- Without a session, adaptive thinking is enabled with the request's budget.
budget_test :
    (convert_adaptive_thinking tree_edit request none).0
    ≡ object (
        member "model" (text "claude-opus") (
          member "max_tokens" (number 5000) (
            member "thinking"
              (enabled tree_edit 4999)
              (member "messages" (array (tree answer no_tree)) no_member))))
unfolding convert_adaptive_thinking
budget_test = refl

-- A printer that prints the model alone, and the bytes of the client.
abbrev print : Tree → Option Bytes
print v = str_at tree_json v "model" >>= λ s. some (codes s)

abbrev client_bytes : Bytes
client_bytes = codes "{...}"

sent_test :
    (transform_body tree_edit by_length print 9 client_bytes
      (some request)
      deepseek
      (some registry)).0
    ≡ codes "deepseek-chat"
unfolding transform_body transform_json filter_request has_history needs_thinking_compat
    resolve_model extract_thinking_content extract_request_hashes fast_hash to_utf8
sent_test = refl

convert_adaptive_thinking_lem_example :
    (is_adaptive tree_edit (convert_adaptive_thinking tree_edit request none).0 ≡ false)
    × (tree_json.get (convert_adaptive_thinking tree_edit request none).0 "thinking" ≡ (
        if is_adaptive tree_edit request && str_eq "thinking" "thinking"
        then some
            (enabled_value tree_edit (wanted_budget none (u64_at tree_json request "max_tokens")))
        else tree_json.get request "thinking"))
convert_adaptive_thinking_lem_example =
    convert_adaptive_thinking_lem tree_edit request none "thinking"

abbrev beta : String
beta = "files-1, adaptive-thinking-2 ,tools-3"

patch_test : patch_anthropic_beta_header beta ≡ "files-1,tools-3,interleaved-thinking-2025-05-14"
unfolding patch_anthropic_beta_header white_space
patch_test = refl

strip_test : strip_thinking_from_beta_header "interleaved-thinking-2025-05-14" ≡ ""
unfolding strip_thinking_from_beta_header white_space
strip_test = refl

abbrev client_headers : List Header
client_headers =
    ("host", some "localhost")
    ∷ ("authorization", some "Bearer client")
    ∷ ("accept", some "json")
    ∷ ("anthropic-beta", some beta)
    ∷ ("x-api-key", some "client")
    ∷ []

abbrev same_case : String → String
same_case s = s

headers_test :
    build_headers same_case client_headers deepseek true
    ≡ ("accept", "json")
      ∷ ("anthropic-beta", "files-1,tools-3,interleaved-thinking-2025-05-14")
      ∷ ("Authorization", "Bearer key")
      ∷ []
unfolding build_headers patch_anthropic_beta_header needs_thinking_compat build_auth_header
    parse_auth_type patch white_space resolve_credential
headers_test = refl

build_headers-credentials_example :
    filter (λ h. is_auth h.0) (build_headers same_case client_headers deepseek true) ≡ (
      if own_credentials same_case deepseek
      then push (build_auth_header same_case deepseek) []
      else filter (λ h. is_auth h.0) (texts client_headers))
build_headers-credentials_example =
    build_headers-credentials same_case client_headers deepseek true
      (refl, (refl, (refl, (refl, (refl, tt)))))

build_headers-Sendable_example :
    All
      (Sendable (needs_thinking_compat deepseek) true)
      (build_headers same_case client_headers deepseek true)
    × (filter (λ h. is_plain h.0) (build_headers same_case client_headers deepseek true)
        ≡ filter (λ h. is_plain h.0) (texts client_headers))
build_headers-Sendable_example = build_headers-Sendable same_case client_headers deepseek true
