-- ===== src/Proxy/Transform/Budget.antt =====
-- The conversion of adaptive thinking (src/proxy/pipeline/transform.rs).
use anycode.Base.{
  ℕ, String, ◌≡◌, refl, ap, ◌∙◌, Bool, true, false, not, ◌&&◌, Option, none, some, str_eq, [], ◌∷◌,
  ◌-◌, ◌%◌, if◌then◌else◌, ◌>>=◌,
}
use anycode.Proxy.Json.{Json, str_at, u64_at}
use anycode.Proxy.Edit.{JsonEdit}
use anycode.Proxy.Transform.{
  is_adaptive, adaptive_type, request_budget, budget, enabled, converted, convert_adaptive_thinking,
}

-- The budget: what is configured, or else one less than `max_tokens`, cut to 32 bits, or else 10000.
abbrev pub wanted_budget : Option ℕ → Option ℕ → ℕ
wanted_budget (some configured) max_tokens = configured
wanted_budget none (some max_tokens) = (max_tokens - 1) % 4294967296
wanted_budget none none = 10000

module _ {V : Type 0} {json : Json V} (edit : JsonEdit json) where
  -- `{"type": "enabled", "budget_tokens": tokens}`
  abbrev pub enabled_value : ℕ → V
  enabled_value tokens =
      edit.object (("type", edit.string "enabled") ∷ ("budget_tokens", edit.number tokens) ∷ [])

  budget-wanted :
      (body : V) (configured : Option ℕ)
      → budget edit body configured ≡ wanted_budget configured (u64_at json body "max_tokens")
  budget-wanted body (some configured) = refl
  budget-wanted body none = go (u64_at json body "max_tokens")
    where
      go : (o : Option ℕ) → request_budget edit o ≡ wanted_budget none o
      go none = refl
      go (some max_tokens) = refl

  -- Only an object can ask for adaptive thinking.
  adaptive-is_object : (body : V) → is_adaptive edit body ≡ true → edit.is_object body ≡ true
  adaptive-is_object body = go (json.get body "thinking") refl
    where
      go :
          (o : Option V)
          → json.get body "thinking" ≡ o
          → adaptive_type edit (o >>= λ t. str_at json t "type") ≡ true
          → edit.is_object body ≡ true
      go none e f = cc
      go (some t) e f = edit.get-is_object body t "thinking" e

  convert-get :
      (body : V) (configured : Option ℕ) (j : String)
      → json.get (convert_adaptive_thinking edit body configured).0 j ≡ (
          if is_adaptive edit body && str_eq "thinking" j
          then some (enabled edit (budget edit body configured))
          else json.get body j)
  unfolding convert_adaptive_thinking
  convert-get body configured j = go (is_adaptive edit body) refl
    where
      tokens : ℕ
      tokens = budget edit body configured

      put :
          (o : Bool)
          → edit.is_object body ≡ o
          → o ≡ true
          → json.get (converted edit body tokens o).0 j
            ≡ (if str_eq "thinking" j then some (enabled edit tokens) else json.get body j)
      put true e f = edit.get-put body (enabled edit tokens) "thinking" j e
      put false e f = cc

      go :
          (t : Bool)
          → is_adaptive edit body ≡ t
          → json.get
              (if not t
                then (body, json.get body "thinking" >>= λ x. some false)
                else converted edit body tokens (edit.is_object body)).0
              j
            ≡ (if t && str_eq "thinking" j then some (enabled edit tokens) else json.get body j)
      go false e = refl
      go true e = put (edit.is_object body) refl (adaptive-is_object body e)

  enabled-type : (tokens : ℕ) → str_at json (enabled edit tokens) "type" ≡ some "enabled"
  enabled-type tokens =
      ap (λ o. o >>= json.as_str)
        (edit.get-object (edit.string "enabled") (edit.number tokens) "type" "budget_tokens" refl)
      ∙ edit.as_str-string "enabled"

  -- The conversion, whose result is sent to a backend that needs its thinking requests rewritten: the
  -- body that results does not ask for adaptive thinking. One that did asks for enabled thinking, with
  -- the budget that is configured, or else one token less than the request's `max_tokens`, cut to 32
  -- bits, or else ten thousand tokens if it has no such limit; nothing else is changed.
  pub convert_adaptive_thinking_lem :
      (body : V) (configured : Option ℕ) (j : String)
      → (is_adaptive edit (convert_adaptive_thinking edit body configured).0 ≡ false)
        × (json.get (convert_adaptive_thinking edit body configured).0 j ≡ (
            if is_adaptive edit body && str_eq "thinking" j
            then some (enabled_value (wanted_budget configured (u64_at json body "max_tokens")))
            else json.get body j))
  convert_adaptive_thinking_lem body configured j = (
    ap (λ o. adaptive_type edit (o >>= λ t. str_at json t "type"))
          (convert-get body configured "thinking")
        ∙ go (is_adaptive edit body) refl,
    convert-get body configured j
        ∙ ap
            (λ n.
              if is_adaptive edit body && str_eq "thinking" j
              then some (enabled_value n)
              else json.get body j)
            (budget-wanted body configured),
  )
    where
      tokens : ℕ
      tokens = budget edit body configured

      go :
          (t : Bool)
          → is_adaptive edit body ≡ t
          → adaptive_type edit (
              (if t && str_eq "thinking" "thinking"
                then some (enabled edit tokens)
                else json.get body "thinking")
              >>= λ x. str_at json x "type")
            ≡ false
      go true e = ap (adaptive_type edit) (enabled-type tokens)
      go false e = e
