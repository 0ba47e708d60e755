-- ===== src/Proxy/Transform.antt =====
-- Stage 4 of the pipeline (src/proxy/pipeline/transform.rs): rewriting the body of a request. What
-- only the log uses is left out. `to_vec` is `serde_json::to_vec`, none for an error.
pub mod Budget
pub mod Strip
pub mod Reasons
pub mod Consistent
pub mod Sent
use anycode.Base.{
  ℕ, ◌+◌, ◌-◌, String, Bool, true, false, not, ◌&&◌, ◌||◌, Option, none, some, List, [], ◌∷◌, Bytes,
  any, filter, length, ltb, min, str_eq, is_some, if◌then◌else◌, ◌>>=◌,
}
use anycode.Config.{Backend, needs_thinking_compat, resolve_model, cap_effort}
use anycode.Proxy.Json.{Json, array_at, str_at, u64_at}
use anycode.Proxy.Edit.{JsonEdit}
use anycode.Proxy.Thinking.{ThinkingRegistry, wrap32, is_thinking, has_history, filter_request}

-- src/proxy/model_rewrite.rs
pub record ModelMapping : Type 0 where
  pub backend : String
  pub original : String

abbrev pub or_blank : Option String → String
or_blank none = ""
or_blank (some s) = s

module _ {V : Type 0} {json : Json V} (edit : JsonEdit json) where
  abbrev stream_flag : Option Bool → Bool
  stream_flag none = false
  stream_flag (some b) = b

  abbrev pub is_streaming : V → Bool
  is_streaming body = stream_flag (json.get body "stream" >>= edit.as_bool)

  abbrev pub mapped_model : V → String → Option String → V × Option ModelMapping
  mapped_model body original none = (body, none)
  mapped_model body original (some new_model) = (
    edit.put body "model" (edit.string new_model),
    some (record { backend = new_model; original = original }),
  )

  abbrev pub rewrite_found : Backend → V → Option String → V × Option ModelMapping
  rewrite_found b body none = (body, none)
  rewrite_found b body (some model) = mapped_model body model (resolve_model b model)

  -- Step 1.
  unfoldable pub rewrite_model : Backend → V → V × Option ModelMapping
  rewrite_model b body = rewrite_found b body (str_at json body "model")

  abbrev pub adaptive_type : Option String → Bool
  adaptive_type none = false
  adaptive_type (some t) = str_eq t "adaptive"

  abbrev pub is_adaptive : V → Bool
  is_adaptive body = adaptive_type (json.get body "thinking" >>= λ t. str_at json t "type")

  abbrev pub request_budget : Option ℕ → ℕ
  request_budget none = 10000
  request_budget (some max_tokens) = wrap32 (max_tokens - 1)

  abbrev pub budget : V → Option ℕ → ℕ
  budget body none = request_budget (u64_at json body "max_tokens")
  budget body (some configured) = configured

  abbrev pub enabled : ℕ → V
  enabled tokens =
      edit.object (("type", edit.string "enabled") ∷ ("budget_tokens", edit.number tokens) ∷ [])

  abbrev pub converted : V → ℕ → Bool → V × Option Bool
  converted body tokens false = (body, none)
  converted body tokens true = (edit.put body "thinking" (enabled tokens), some true)

  -- Step 2.
  unfoldable pub convert_adaptive_thinking : V → Option ℕ → V × Option Bool
  convert_adaptive_thinking body configured =
      if not (is_adaptive body)
      then (body, json.get body "thinking" >>= λ t. some false)
      else converted body (budget body configured) (edit.is_object body)

  abbrev pub was_converted : Option Bool → Bool
  was_converted none = false
  was_converted (some changed) = changed

  abbrev pub convert_for : Backend → V → V × Bool
  convert_for b body =
      let result = convert_adaptive_thinking body b.thinking_budget_tokens in
      if needs_thinking_compat b then (result.0, was_converted result.1) else (body, false)

  abbrev pub without_thinking : List V → List V
  without_thinking items = filter (λ item. not (is_thinking json item)) items

  abbrev pub strip_content : V → Option (List V) → V × ℕ
  strip_content m none = (m, 0)
  strip_content m (some content) = (
    json.put_array m "content" (without_thinking content),
    wrap32 (length content - length (without_thinking content)),
  )

  abbrev pub strip_message : V → V × ℕ
  strip_message m = strip_content m (array_at json m "content")

  abbrev pub strip_messages : List V → ℕ → List V × ℕ
  strip_messages [] removed = ([], removed)
  strip_messages (m ∷ ms) removed =
      let rest = strip_messages ms (wrap32 (removed + (strip_message m).1)) in
      ((strip_message m).0 ∷ rest.0, rest.1)

  abbrev pub strip_all : V → Option (List V) → V × ℕ
  strip_all body none = (body, 0)
  strip_all body (some ms) =
      (json.put_array body "messages" (strip_messages ms 0).0, (strip_messages ms 0).1)

  unfoldable pub strip_all_thinking_blocks : V → V × ℕ
  strip_all_thinking_blocks body = strip_all body (array_at json body "messages")

  abbrev pub content_has_thinking : Option (List V) → Bool
  content_has_thinking none = false
  content_has_thinking (some content) = any (is_thinking json) content

  abbrev pub message_has_thinking : V → Bool
  message_has_thinking m = content_has_thinking (array_at json m "content")

  abbrev pub messages_have_thinking : Option (List V) → Bool
  messages_have_thinking none = false
  messages_have_thinking (some ms) = any message_has_thinking ms

  unfoldable pub has_remaining_thinking_blocks : V → Bool
  has_remaining_thinking_blocks body = messages_have_thinking (array_at json body "messages")

  -- The same scan as `has_assistant_history` of the thinking registry.
  abbrev pub has_assistant_messages : V → Bool
  has_assistant_messages body = has_history json body

  pub record Cleaned : Type 0 where
    pub body : V
    pub filtered_count : ℕ
    pub thinking_converted : Bool

  -- `u32::saturating_add`
  abbrev saturating_add : ℕ → ℕ → ℕ
  saturating_add a b = min (a + b) 4294967295

  abbrev pub should_strip_all : V → ℕ → Bool
  should_strip_all body filtered_count =
      has_assistant_messages body
      && (ltb 0 filtered_count || not (has_remaining_thinking_blocks body))

  abbrev pub removes_top_level : V → Bool
  removes_top_level body = edit.is_object body && is_some (json.get body "thinking")

  -- A value that is no object is left as it is.
  abbrev pub remove_top_level : V → V
  remove_top_level body = if edit.is_object body then edit.remove body "thinking" else body

  abbrev pub stripped : V → ℕ → ℕ → Bool → Cleaned
  stripped body filtered_count extra_stripped thinking_converted = record {
    body = remove_top_level body;
    filtered_count = saturating_add filtered_count extra_stripped;
    thinking_converted =
        if removes_top_level body || ltb 0 extra_stripped then false else thinking_converted;
  }

  -- What follows the filter in step 3.
  unfoldable pub clean : V → ℕ → Bool → Cleaned
  unfolding strip_all_thinking_blocks has_remaining_thinking_blocks
  clean body filtered_count thinking_converted =
      let strip = strip_all_thinking_blocks body in
      if should_strip_all body filtered_count
      then stripped strip.0 filtered_count strip.1 thinking_converted
      else record {
        body = body;
        filtered_count = filtered_count;
        thinking_converted = thinking_converted;
      }

  abbrev pub capped : V → V → Option String → V × Bool
  capped body output_config none = (body, false)
  capped body output_config (some limit) =
      (edit.put body "output_config" (edit.put output_config "effort" (edit.string limit)), true)

  abbrev pub cap_found : Backend → String → V → V → Option String → V × Bool
  cap_found b original_model body output_config none = (body, false)
  cap_found b original_model body output_config (some effort) =
      capped body output_config (cap_effort b effort original_model)

  -- Only an object has an `effort`.
  abbrev pub cap_config : Backend → String → V → Option V → V × Bool
  cap_config b original_model body none = (body, false)
  cap_config b original_model body (some output_config) =
      cap_found b original_model body output_config
        (if edit.is_object output_config then str_at json output_config "effort" else none)

  -- Step 4.
  unfoldable pub cap_output_effort : Backend → String → V → V × Bool
  cap_output_effort b original_model body =
      cap_config b original_model body (json.get body "output_config")

  pub record Transformed : Type 0 where
    pub body : V
    pub changed : Bool
    pub is_streaming_request : Bool
    pub model_mapping : Option ModelMapping
    pub thinking_active : Bool
    pub registry : Option ThinkingRegistry

  -- The body before and behind the filter of the session, and what the filter removed.
  pub record Filtered : Type 0 where
    pub cleaned : Cleaned
    pub registry : Option ThinkingRegistry

  module _ (hasher : Bytes → Bytes → ℕ → ℕ) where
    abbrev filtered_by : ThinkingRegistry × (V × ℕ) → Bool → Filtered
    filtered_by result thinking_converted = record {
      cleaned = clean result.1.0 result.1.1 thinking_converted;
      registry = some result.0;
    }

    -- Step 3; a session is the registry that it shares.
    unfoldable pub apply_session : ℕ → Option ThinkingRegistry → V → Bool → Filtered
    unfolding clean
    apply_session now none body thinking_converted = record {
      cleaned = record { body = body; filtered_count = 0; thinking_converted = thinking_converted };
      registry = none;
    }
    apply_session now (some r) body thinking_converted =
        filtered_by (filter_request json hasher now r body) thinking_converted

    -- All the steps on a body that could be parsed.
    unfoldable pub transform_json : ℕ → Backend → Option ThinkingRegistry → V → Transformed
    unfolding rewrite_model convert_adaptive_thinking apply_session cap_output_effort
    transform_json now b thinking body =
        let rewritten = rewrite_model b body in
        let converted = convert_for b rewritten.0 in
        let filtered = apply_session now thinking converted.0 converted.1 in
        let thinking_active = is_some (json.get filtered.cleaned.body "thinking") in
        let effort =
          cap_output_effort b (or_blank (str_at json body "model")) filtered.cleaned.body in
        record {
          body = effort.0;
          changed =
              is_some rewritten.1
              || filtered.cleaned.thinking_converted
              || ltb 0 filtered.cleaned.filtered_count
              || effort.1
              || not thinking_active;
          is_streaming_request = is_streaming body;
          model_mapping = rewritten.1;
          thinking_active = thinking_active;
          registry = filtered.registry;
        }

    abbrev pub bytes_or : Bytes → Option Bytes → Bytes
    bytes_or body_bytes none = body_bytes
    bytes_or body_bytes (some updated) = updated

    abbrev pub sent_bytes : (V → Option Bytes) → Bytes → Transformed → Bytes
    sent_bytes to_vec body_bytes t =
        if t.changed then bytes_or body_bytes (to_vec t.body) else body_bytes

    -- The bytes, whether the request streams, the mapping of the model, and whether thinking is
    -- active.
    unfoldable pub transform_body :
        (V → Option Bytes)
        → ℕ
        → Bytes
        → Option V
        → Backend
        → Option ThinkingRegistry
        → Bytes × (Bool × (Option ModelMapping × Bool))
    unfolding transform_json
    transform_body to_vec now body_bytes none b thinking = (body_bytes, (false, (none, false)))
    transform_body to_vec now body_bytes (some body) b thinking =
        let t = transform_json now b thinking body in
        (
          sent_bytes to_vec body_bytes t,
          (t.is_streaming_request, (t.model_mapping, t.thinking_active)),
        )
