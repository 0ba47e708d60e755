-- ===== src/Proxy/Transform/Consistent.antt =====
-- What the backend gets to see of thinking, once a request of the main agent has been rewritten
-- (src/proxy/pipeline/transform.rs).
use anycode.Base.{
  ℕ, String, ◌≡◌, refl, sym, ap, ◌∙◌, Bool, true, false, Option, none, some, Bytes, All-map, str_eq,
  is_some, if◌then◌else◌, ◌>>=◌,
}
use anycode.Config.{Backend, cap_effort}
use anycode.Proxy.Json.{Json, str_at}
use anycode.Proxy.Edit.{JsonEdit}
use anycode.Proxy.Thinking.{ThinkingRegistry, filter_request}
use anycode.Proxy.Thinking.Requests.{
  ContentAll, BodyAll, ContentAll-map, Cached, no_thinking, filter_request-Cached,
}
use anycode.Proxy.Transform.{
  rewrite_model, convert_for, or_blank, strip_all_thinking_blocks, should_strip_all,
  remove_top_level, clean, stripped, Cleaned, capped, cap_found, cap_config, cap_output_effort,
  apply_session, transform_json,
}
use anycode.Proxy.Transform.Reasons.{
  Inconsistent, Consistent, should_strip_all-Inconsistent, should_strip_all-Consistent,
}
use anycode.Proxy.Transform.Strip.{NotThinking, strip_all-NotThinking}

module _ {V : Type 0} {json : Json V} (edit : JsonEdit json) where
  -- Capping the effort changes `output_config` alone.
  cap_output_effort-get :
      (b : Backend) (model : String) (body : V) (j : String)
      → str_eq "output_config" j ≡ false
      → json.get (cap_output_effort edit b model body).0 j ≡ json.get body j
  unfolding cap_output_effort
  cap_output_effort-get b model body j ne = config (json.get body "output_config") refl
    where
      limited :
          (oc : V) (o : Option String)
          → json.get body "output_config" ≡ some oc
          → json.get (capped edit body oc o).0 j ≡ json.get body j
      limited oc none e = refl
      limited oc (some limit) e =
          edit.get-put body (edit.put oc "effort" (edit.string limit)) "output_config" j
            (edit.get-is_object body oc "output_config" e)
          ∙ ap (λ t. if t then some (edit.put oc "effort" (edit.string limit)) else json.get body j)
              ne

      found :
          (oc : V) (o : Option String)
          → json.get body "output_config" ≡ some oc
          → json.get (cap_found edit b model body oc o).0 j ≡ json.get body j
      found oc none e = refl
      found oc (some effort) e = limited oc (cap_effort b effort model) e

      config :
          (o : Option V)
          → json.get body "output_config" ≡ o
          → json.get (cap_config edit b model body o).0 j ≡ json.get body j
      config none e = refl
      config (some oc) e = found oc (if edit.is_object oc then str_at json oc "effort" else none) e

  -- What the cleaning makes of a filtered body: it is stripped of all thinking if it is inconsistent,
  -- and otherwise left as it is.
  pub data Outcome (filtered : V) (removed : ℕ) (sent : V) : Type 0 where
    all_stripped :
        Inconsistent edit filtered removed
        → json.get sent "thinking" ≡ none
        → BodyAll json (NotThinking edit) sent
        → Outcome filtered removed sent
    as_filtered :
        Consistent edit filtered removed
        → json.get sent "thinking" ≡ json.get filtered "thinking"
        → json.get sent "messages" ≡ json.get filtered "messages"
        → Outcome filtered removed sent

  abbrev moved :
      (P : V → Type 0) (v w : V)
      → json.get w "messages" ≡ json.get v "messages"
      → BodyAll json P v
      → BodyAll json P w
  moved P v w e h ms f = h ms (ap (λ o. o >>= json.as_array) (sym e) ∙ f)

  pub remove_top_level-get :
      (v : V) (j : String)
      → json.get (remove_top_level edit v) j ≡ (if str_eq "thinking" j then none else json.get v j)
  remove_top_level-get v j = go (edit.is_object v) refl
    where
      kept : (b : Bool) (o : Option V) → o ≡ none → o ≡ (if b then none else o)
      kept true o e = e
      kept false o e = refl

      absent : (o : Option V) → json.get v j ≡ o → edit.is_object v ≡ false → o ≡ none
      absent none e f = refl
      absent (some x) e f = cc (edit.get-is_object v x j e)

      go :
          (t : Bool)
          → edit.is_object v ≡ t
          → json.get (if t then edit.remove v "thinking" else v) j
            ≡ (if str_eq "thinking" j then none else json.get v j)
      go true e = edit.get-remove v "thinking" j
      go false e = kept (str_eq "thinking" j) (json.get v j) (absent (json.get v j) refl e)

  clean-Outcome :
      (filtered : V) (removed : ℕ) (converted : Bool)
      → Outcome filtered removed (clean edit filtered removed converted).body
  unfolding clean
  clean-Outcome filtered removed converted = go (should_strip_all edit filtered removed) refl
    where
      strip : V
      strip = (strip_all_thinking_blocks edit filtered).0

      as_it_is : Cleaned edit
      as_it_is = record {
        body = filtered;
        filtered_count = removed;
        thinking_converted = converted;
      }

      go :
          (t : Bool)
          → should_strip_all edit filtered removed ≡ t
          → Outcome filtered removed
              (if t
                then stripped edit strip removed
                    (strip_all_thinking_blocks edit filtered).1
                    converted
                else as_it_is).body
      go true e =
          all_stripped (should_strip_all-Inconsistent edit filtered removed e)
            (remove_top_level-get strip "thinking")
            (moved (NotThinking edit) strip (remove_top_level edit strip)
              (remove_top_level-get strip "messages") (strip_all-NotThinking edit filtered))
      go false e = as_filtered (should_strip_all-Consistent edit filtered removed e) refl refl

  Outcome-moved :
      (filtered : V) (removed : ℕ) (v w : V)
      → ((j : String) → str_eq "output_config" j ≡ false → json.get w j ≡ json.get v j)
      → Outcome filtered removed v
      → Outcome filtered removed w
  Outcome-moved filtered removed v w same (all_stripped e f h) =
      all_stripped e (same "thinking" refl ∙ f)
        (moved (NotThinking edit) v w (same "messages" refl) h)
  Outcome-moved filtered removed v w same (as_filtered e f g) =
      as_filtered e (same "thinking" refl ∙ f) (same "messages" refl ∙ g)

  module _ (hasher : Bytes → Bytes → ℕ → ℕ) where
    -- The body as the filter of the session gets it: with its model and its thinking rewritten.
    abbrev pub prepared : Backend → V → V
    prepared b body = (convert_for edit b (rewrite_model edit b body).0).0

    Outcome-Cached :
        (r : ThinkingRegistry) (filtered : V) (removed : ℕ) (sent : V)
        → BodyAll json (Cached json hasher r) filtered
        → Outcome filtered removed sent
        → BodyAll json (Cached json hasher r) sent
    Outcome-Cached r filtered removed sent h (as_filtered e f g) =
        moved (Cached json hasher r) filtered sent g h
    Outcome-Cached r filtered removed sent h (all_stripped e f k) = λ ms i.
        All-map (ContentAll json (NotThinking edit)) (ContentAll json (Cached json hasher r))
          (ContentAll-map json (NotThinking edit) (Cached json hasher r) (λ v n. no_thinking n)) ms
          (k ms i)

    -- What becomes of the thinking in the body of a request with a session.
    pub transform_json-Outcome :
        (now : ℕ) (b : Backend) (r : ThinkingRegistry) (body : V)
        → let filter = filter_request json hasher now r (prepared b body) in
          let t = transform_json edit hasher now b (some r) body in
          Outcome filter.1.0 filter.1.1 t.body
          × BodyAll json (Cached json hasher filter.0) t.body
          × (t.thinking_active ≡ is_some (json.get t.body "thinking"))
    unfolding transform_json apply_session
    transform_json-Outcome now b r body =
        let ready = prepared b body in
        let filter = filter_request json hasher now r ready in
        let cleaned =
          clean edit filter.1.0 filter.1.1 (convert_for edit b (rewrite_model edit b body).0).1 in
        let model = or_blank (str_at json body "model") in
        let sent = (cap_output_effort edit b model cleaned.body).0 in
        let same = λ (j : String) (e : str_eq "output_config" j ≡ false).
          cap_output_effort-get b model cleaned.body j e in
        let outcome = Outcome-moved filter.1.0 filter.1.1 cleaned.body sent same (
          clean-Outcome filter.1.0 filter.1.1
            (convert_for edit b (rewrite_model edit b body).0).1) in
        (
          outcome,
          Outcome-Cached filter.0 filter.1.0 filter.1.1 sent
              (filter_request-Cached json hasher now r ready).0 outcome,
          ap is_some (sym (same "thinking" refl)),
        )
